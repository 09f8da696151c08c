-- ===== src/Dynsec/Correlation.antt =====
-- No send of the client blocks, and a call gets the response to its own command.
use sense_grid.Common.{
  ℕ, zero, suc, ◌<◌, ◌≡◌, refl, sym, ap, subst, ◌∙◌, inl, inr, ◌≢◌, false, Option, none, some, List,
  [], ◌∷◌, ◌++◌, arith, ◌==◌, text_Eq, text_eq_iff, Text, length, get_elem?, set, All, All-append,
  lookup, delete, lookup-insert, lookup-delete, ok, Bool-cases, Option-cases,
}
use sense_grid.Dynsec.Client.{
  Response, Caller, Client, new_client, send, deliver, deliver_all, handle_response, register,
  Ending, marshal_failed, publish_timed_out, publish_failed, received, no_response, cancelled,
  close, end_call, finish, Event, registers, responds, finishes, step, run,
}

-- A caller has its own response, if any.
abbrev pub IsOwn : Caller → Type 0
IsOwn caller = (r : Response) → caller.inbox ≡ some r → r.correlation_data ≡ caller.id

-- An entry of `pending` leads to a caller of this id that has no response yet.
abbrev IsWaiting : Text → Option Caller → Type 0
IsWaiting id none = ⊥
IsWaiting id (some caller) = (caller.id ≡ id) × (caller.inbox ≡ none)

pub record Inv (c : Client) : Type 0 where
  pub waiting :
      (id : Text) (n : ℕ) → lookup id c.pending ≡ some n → IsWaiting id (get_elem? c.callers n)
  pub own : All IsOwn c.callers
  pub running : c.blocked ≡ false

get_elem?-append :
    {A : Type 0} (xs ys : List A) (n : ℕ) → n < length xs → get_elem? (xs ++ ys) n ≡ get_elem? xs n
get_elem?-append [] ys n h = elim h [ ]
get_elem?-append (x ∷ xs) ys zero h = refl
get_elem?-append (x ∷ xs) ys (suc n) h = get_elem?-append xs ys n (omega arith)

get_elem?-end : {A : Type 0} (xs : List A) (x : A) → get_elem? (xs ++ x ∷ []) (length xs) ≡ some x
get_elem?-end [] x = refl
get_elem?-end (y ∷ xs) x = get_elem?-end xs x

IsWaiting-lt :
    (id : Text) (callers : List Caller) (n : ℕ)
    → IsWaiting id (get_elem? callers n)
    → n < length callers
IsWaiting-lt id [] n h = absurd h
IsWaiting-lt id (c ∷ callers) zero h = omega arith
IsWaiting-lt id (c ∷ callers) (suc n) h = omega (arith, IsWaiting-lt id callers n h)

All-set :
    (callers : List Caller) (n : ℕ) (c : Caller)
    → All IsOwn callers
    → IsOwn c
    → All IsOwn (set callers n c)
All-set [] n c a h = a
All-set (x ∷ callers) zero c (_, a) h = (h, a)
All-set (x ∷ callers) (suc n) c (k, a) h = (k, All-set callers n c a h)

get_elem?-set_other :
    {A : Type 0} (xs : List A) (n m : ℕ) (x : A) → n ≢ m → get_elem? (set xs n x) m ≡ get_elem? xs m
get_elem?-set_other [] n m x h = refl
get_elem?-set_other (y ∷ xs) zero zero x h = absurd (h refl)
get_elem?-set_other (y ∷ xs) zero (suc m) x h = refl
get_elem?-set_other (y ∷ xs) (suc n) zero x h = refl
get_elem?-set_other (y ∷ xs) (suc n) (suc m) x h = get_elem?-set_other xs n m x (λ e. h (ap suc e))

register-IsWaiting :
    (id : Text) (c : Client)
    → Inv c
    → (j : Text) (n : ℕ) → lookup j (register id c).pending ≡ some n
    → IsWaiting j (get_elem? (register id c).callers n)
unfolding register
register-IsWaiting id c v j n found =
    let new : Caller = record { id = id; inbox = none } in
    let held = sym (lookup-insert id j (length c.callers) c.pending) ∙ found in
    elim (Bool-cases (id == j)) [
      | inl same ↦
          let last : length c.callers ≡ n = cc (rw same at held) in
          subst (λ (m : ℕ). IsWaiting j (get_elem? (c.callers ++ new ∷ []) m)) last
            (rw (get_elem?-end c.callers new) ((text_eq_iff id j).0 same, refl))
      | inr other ↦
          let before = v.waiting j n (rw other at held) in
          rw (get_elem?-append c.callers (new ∷ []) n (IsWaiting-lt j c.callers n before)) before
    ]

register-Inv : (id : Text) (c : Client) → Inv c → Inv (register id c)
unfolding register
register-Inv id c v = record {
  waiting = register-IsWaiting id c v;
  own = All-append IsOwn c.callers _ v.own ((λ r h. cc), tt);
  running = v.running;
}

delete-held :
    (id : Text) (c : Client)
    → Inv c
    → (j : Text) (n : ℕ) → lookup j (delete id c.pending) ≡ some n
    → ((id == j) ≡ false) × (lookup j c.pending ≡ some n)
delete-held id c v j n found =
    let held = sym (lookup-delete id j c.pending) ∙ found in
    elim (Bool-cases (id == j)) [
      | inl same ↦ absurd (cc (rw same at held))
      | inr other ↦ (other, rw other at held)
    ]

delete-Inv : (id : Text) (c : Client) → Inv c → Inv (record c { pending = delete id c.pending })
delete-Inv id c v = record {
  waiting = λ j n found. v.waiting j n (delete-held id c v j n found).1;
  own = v.own;
  running = v.running;
}

-- The channel that `pending` leads to takes the response.
send-Inv :
    (r : Response) (c : Client) (n : ℕ) (caller : Caller)
    → Inv c
    → get_elem? c.callers n ≡ some caller
    → caller.id ≡ r.correlation_data
    → Inv (record c {
      callers = set c.callers n (record caller { inbox = some r });
      pending = delete r.correlation_data c.pending;
    })
send-Inv r c n caller v at mine = record {
  waiting = λ j m found.
      let (other, held) = delete-held r.correlation_data c v j m found in
      let before = v.waiting j m held in
      rw
        (get_elem?-set_other c.callers n m (record caller { inbox = some r })
          (λ e.
            let theirs : caller.id ≡ j =
              (rw at at
                (subst (λ (k : ℕ). IsWaiting j (get_elem? c.callers k)) (sym e) before)).0 in
            cc (other, (text_eq_iff r.correlation_data j).1 (sym mine ∙ theirs))))
        before;
  own =
      All-set c.callers n (record caller { inbox = some r }) v.own
        (λ x e.
          let same : r ≡ x = cc e in
          ap (λ (y : Response). y.correlation_data) (sym same) ∙ sym mine);
  running = v.running;
}

deliver-Inv : (r : Response) (c : Client) → Inv c → Inv (deliver r c)
unfolding deliver send
deliver-Inv r c v = elim (Option-cases (lookup r.correlation_data c.pending)) [
  | inl stray ↦ rw (stray, deliver) v
  | inr (n, found) ↦
      let w = v.waiting r.correlation_data n found in
      elim (Option-cases (get_elem? c.callers n)) [
        | inl missing ↦ absurd (rw missing at w)
        | inr (caller, at) ↦
            let (mine, empty) = rw at at w in
            rw (found, deliver) (rw (at, send) (rw empty (send-Inv r c n caller v at mine)))
      ]
]

deliver_all-Inv : (rs : List Response) (c : Client) → Inv c → Inv (deliver_all rs c)
unfolding deliver_all
deliver_all-Inv [] c v = v
deliver_all-Inv (r ∷ rs) c v = deliver_all-Inv rs (deliver r c) (deliver-Inv r c v)

end_call-Inv : (e : Ending) (caller : Caller) (c : Client) → Inv c → Inv (end_call e caller c).1
unfolding end_call close
end_call-Inv received caller c v = elim (Option-cases caller.inbox) [
  | inl empty ↦ rw empty v
  | inr (r, full) ↦ rw full (delete-Inv caller.id c v)
]
end_call-Inv marshal_failed caller c v = delete-Inv caller.id c v
end_call-Inv publish_timed_out caller c v = delete-Inv caller.id c v
end_call-Inv publish_failed caller c v = delete-Inv caller.id c v
end_call-Inv no_response caller c v = delete-Inv caller.id c v
end_call-Inv cancelled caller c v = delete-Inv caller.id c v

finish-Inv : (n : ℕ) (ending : Ending) (c : Client) → Inv c → Inv (finish n ending c).1
unfolding finish
finish-Inv n ending c v = elim (Option-cases (get_elem? c.callers n)) [
  | inl missing ↦ rw (missing, finish) v
  | inr (caller, at) ↦ rw (at, finish) (end_call-Inv ending caller c v)
]

step-Inv : (event : Event) (c : Client) → Inv c → Inv (step event c)
unfolding step handle_response
step-Inv (registers id) c v = register-Inv id c v
step-Inv (responds none) c v = v
step-Inv (responds (some rs)) c v = deliver_all-Inv rs c v
step-Inv (finishes n ending) c v = finish-Inv n ending c v

run-Inv : (events : List Event) (c : Client) → Inv c → Inv (run events c)
unfolding run
run-Inv [] c v = v
run-Inv (event ∷ events) c v = run-Inv events (step event c) (step-Inv event c v)

All-get_elem? :
    (callers : List Caller) (n : ℕ) (caller : Caller)
    → All IsOwn callers
    → get_elem? callers n ≡ some caller
    → IsOwn caller
All-get_elem? [] n caller a e = cc
All-get_elem? (x ∷ callers) zero caller (h, a) e = let same : x ≡ caller = cc e in rw (← same) h
All-get_elem? (x ∷ callers) (suc n) caller (h, a) e = All-get_elem? callers n caller a e

received_own :
    (c : Client) (n : ℕ) (caller : Caller) (r : Response)
    → Inv c
    → get_elem? c.callers n ≡ some caller
    → (finish n received c).0 ≡ some (ok r)
    → r.correlation_data ≡ caller.id
unfolding finish end_call
received_own c n caller r v at got = elim (Option-cases caller.inbox) [
  | inl empty ↦ absurd (cc (rw empty at (rw (at, finish) at got)))
  | inr (x, full) ↦
      All-get_elem? c.callers n caller v.own at r (cc (full, rw full at (rw (at, finish) at got)))
]

-- Whatever calls begin and end and whatever messages come in on a new client: no send of
-- handleResponse ever finds its channel full, so that it never waits with the mutex held; and a
-- call that gets a response gets one that carries the correlation id of its own command.
pub run-new_client :
    (events : List Event)
    → ((run events new_client).blocked ≡ false)
      × ((n : ℕ) (caller : Caller) (r : Response)
          → get_elem? (run events new_client).callers n ≡ some caller
          → (finish n received (run events new_client)).0 ≡ some (ok r)
          → r.correlation_data ≡ caller.id)
unfolding new_client
run-new_client events =
    let v =
      run-Inv events new_client
        (record { waiting = λ id n found. absurd (cc found); own = tt; running = refl }) in
    (v.running, λ n caller r at got. received_own (run events new_client) n caller r v at got)
