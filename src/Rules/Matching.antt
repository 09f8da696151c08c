-- ===== src/Rules/Matching.antt =====
-- Which sensors a rule matches.
use sense_grid.Common.{
  ◌-◌, ◌≡◌, ◌↔◌, ◌⊎◌, refl, sym, ap, ◌∙◌, inl, inr, true, false, [], ◌∷◌, ◌++◌, arith, ◌==◌,
  text_Eq, text_eq_iff, ==_refl, Text, codes, length, length-append, append_assoc, take, Bool-cases,
}
use sense_grid.Rules.Rule.{Rule, has_prefix, has_suffix, trim_suffix, matches}

has_prefix_iff : (p t : Text) → (has_prefix p t ≡ true) ↔ ((rest : Text) × (t ≡ p ++ rest))
unfolding has_prefix
has_prefix_iff [] t = (λ h. (t, refl), λ h. refl)
has_prefix_iff (b ∷ p) [] = (λ h. cc, λ (rest, e). cc)
has_prefix_iff (b ∷ p) (c ∷ t) = (
  λ h. let (rest, e) = (has_prefix_iff p t).0 (ground arith) in (rest, ground arith),
  λ (rest, e). ground (arith, (has_prefix_iff p t).1 (rest, ground arith)),
)

has_suffix-append : (p s : Text) → has_suffix s (p ++ s) ≡ true
unfolding has_suffix
has_suffix-append [] [] = refl
has_suffix-append [] (b ∷ s) = rw (==_refl (b ∷ s)) refl
has_suffix-append (c ∷ p) s = ground (arith, has_suffix-append p s)

has_suffix-split : (s t : Text) → has_suffix s t ≡ true → (p : Text) × (t ≡ p ++ s)
unfolding has_suffix
has_suffix-split s [] h = ([], sym ((text_eq_iff s []).0 h))
has_suffix-split s (b ∷ t) h = elim (Bool-cases (s == b ∷ t)) [
  | inl e ↦ ([], sym ((text_eq_iff s (b ∷ t)).0 e))
  | inr e ↦ let (p, q) = has_suffix-split s t (ground arith) in (b ∷ p, ap (λ l. b ∷ l) q)
]

take-append : (p s : Text) → take (length p) (p ++ s) ≡ p
take-append [] s = refl
take-append (b ∷ p) s = ap (λ l. b ∷ l) (take-append p s)

trim_suffix-append : (p s : Text) → trim_suffix s (p ++ s) ≡ p
trim_suffix-append p s =
    let n : length (p ++ s) - length s ≡ length p = omega (arith, length-append p s) in
    rw (has_suffix-append p s) (rw n (take-append p s))

trim_star : (p : Text) → trim_suffix (codes "*") (p ++ codes ".*") ≡ p ++ codes "."
trim_star p =
    ap (trim_suffix (codes "*")) (sym (append_assoc p (codes ".") (codes "*")))
    ∙ trim_suffix-append (p ++ codes ".") (codes "*")

not_star : (p : Text) → (p ++ codes ".*" == codes "*") ≡ false
not_star [] = refl
not_star (b ∷ []) = ground arith
not_star (b ∷ c ∷ p) = ground arith

-- A rule applies to a sensor exactly when its sensor type is `*`, or is the sensor, or is a prefix
-- with `.*` behind it and the sensor is that prefix, a dot, and any text.
pub matches_iff :
    {F : Type 0} (r : Rule F) (sensor : Text)
    → (matches r sensor ≡ true) ↔ (
        (r.sensor_type ≡ codes "*")
        ⊎ ((r.sensor_type ≡ sensor)
            ⊎ ((p : Text) × (rest : Text) × (r.sensor_type ≡ p ++ codes ".*")
                × (sensor ≡ (p ++ codes ".") ++ rest))))
unfolding matches
matches_iff r sensor = (there, back)
  where
    there :
        matches r sensor ≡ true
        → (r.sensor_type ≡ codes "*")
          ⊎ ((r.sensor_type ≡ sensor)
              ⊎ ((p : Text) × (rest : Text) × (r.sensor_type ≡ p ++ codes ".*")
                  × (sensor ≡ (p ++ codes ".") ++ rest)))
    there h = elim (Bool-cases (r.sensor_type == codes "*")) [
      | inl star ↦ inl ((text_eq_iff r.sensor_type (codes "*")).0 star)
      | inr plain ↦ elim (Bool-cases (has_suffix (codes ".*") r.sensor_type)) [
        | inr exact ↦ inr (inl ((text_eq_iff r.sensor_type sensor).0 (ground arith)))
        | inl dotted ↦
            let (p, e) = has_suffix-split (codes ".*") r.sensor_type dotted in
            let t : trim_suffix (codes "*") r.sensor_type ≡ p ++ codes "." =
              ap (trim_suffix (codes "*")) e ∙ trim_star p in
            let f : has_prefix (trim_suffix (codes "*") r.sensor_type) sensor ≡ true =
              ground arith in
            let (rest, q) =
              (has_prefix_iff (p ++ codes ".") sensor).0
                (ap (λ x. has_prefix x sensor) (sym t) ∙ f) in
            inr (inr (p, rest, e, q))
      ]
    ]

    by_prefix :
        (p rest : Text)
        → r.sensor_type ≡ p ++ codes ".*"
        → sensor ≡ (p ++ codes ".") ++ rest
        → matches r sensor ≡ true
    by_prefix p rest e q =
        let t : trim_suffix (codes "*") r.sensor_type ≡ p ++ codes "." =
          ap (trim_suffix (codes "*")) e ∙ trim_star p in
        let a : (r.sensor_type == codes "*") ≡ false = ap (λ x. x == codes "*") e ∙ not_star p in
        let d : has_suffix (codes ".*") r.sensor_type ≡ true =
          ap (has_suffix (codes ".*")) e ∙ has_suffix-append p (codes ".*") in
        let f : has_prefix (trim_suffix (codes "*") r.sensor_type) sensor ≡ true =
          ap (λ x. has_prefix x sensor) t ∙ (has_prefix_iff (p ++ codes ".") sensor).1 (rest, q) in
        rw (a, matches) (rw d f)

    back :
        (r.sensor_type ≡ codes "*")
          ⊎ ((r.sensor_type ≡ sensor)
              ⊎ ((p : Text) × (rest : Text) × (r.sensor_type ≡ p ++ codes ".*")
                  × (sensor ≡ (p ++ codes ".") ++ rest)))
        → matches r sensor ≡ true
    back (inl star) = rw ((text_eq_iff r.sensor_type (codes "*")).1 star, matches) refl
    back (inr (inr (p, rest, e, q))) = by_prefix p rest e q
    back (inr (inl same)) = elim (Bool-cases (r.sensor_type == codes "*")) [
      | inl star ↦ rw (star, matches) refl
      | inr plain ↦ elim (Bool-cases (has_suffix (codes ".*") r.sensor_type)) [
        | inr exact ↦ rw (plain, matches) (rw exact ((text_eq_iff r.sensor_type sensor).1 same))
        | inl dotted ↦
            let (p, e) = has_suffix-split (codes ".*") r.sensor_type dotted in
            by_prefix p (codes "*") e (sym same ∙ e ∙ sym (append_assoc p (codes ".") (codes "*")))
      ]
    ]
