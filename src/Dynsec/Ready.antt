-- ===== src/Dynsec/Ready.antt =====
-- A bootstrap that answers a client leaves the role of the devices in the broker.
use sense_grid.Common.{
  ℕ, zero, suc, ◌≡◌, refl, inl, inr, Bool, true, false, ◌||◌, Option, none, some, List,
  if◌then◌else◌, nat_eq, ◌==◌, text_Eq, Text, Bool-cases,
}
use sense_grid.Dynsec.Client.{Response}
use sense_grid.Dynsec.Commands.{
  Acl, Broker, Command, create_role, Error, is_empty, checked, err_role_exists, ensure_role,
  create_client, connect,
}
use sense_grid.Dynsec.Bootstrap.{
  Settings, device_role_name, device_role_text, device_acls, dynsec_config, control_account,
  service_accounts, attempt_dynsec_bootstrap, retry, connect_dynsec,
}

-- What the control plane relies on of the broker: a createRole that it answers without an error, or
-- because the role exists, leaves the role there, and no command takes a role away.
pub record RoleLaws {W : Type 0} (b : Broker W) (HasRole : Text → W → Type 0) : Type 0 where
  pub created :
      (rolename textname : Text) (acls : List Acl) (w : W) (r : Response)
      → (b.rpc (create_role rolename textname acls) w).0 ≡ some r
      → (is_empty r.error || r.error == err_role_exists) ≡ true
      → HasRole rolename (b.rpc (create_role rolename textname acls) w).1
  pub keeps :
      (rolename : Text) (command : Command) (w : W)
      → HasRole rolename w
      → HasRole rolename (b.rpc command w).1

checked-none :
    (exists : Text) (resp : Option Response)
    → checked exists resp ≡ none
    → (r : Response) × (resp ≡ some r) × ((is_empty r.error || r.error == exists) ≡ true)
unfolding checked
checked-none exists none fine = cc
checked-none exists (some r) fine = elim (Bool-cases (is_empty r.error || r.error == exists)) [
  | inl good ↦ (r, refl, good)
  | inr bad ↦ absurd (cc (rw bad at fine))
]

module _ {W : Type 0} (b : Broker W) (HasRole : Text → W → Type 0) (laws : RoleLaws b HasRole)
    (cfg : Settings) where
  ensure_role-HasRole :
      (rolename textname : Text) (acls : List Acl) (w : W)
      → (ensure_role b rolename textname acls w).0 ≡ none
      → HasRole rolename (ensure_role b rolename textname acls w).1
  unfolding ensure_role
  ensure_role-HasRole rolename textname acls w fine =
      let (r, answered, good) =
        checked-none err_role_exists (b.rpc (create_role rolename textname acls) w).0 fine in
      laws.created rolename textname acls w r answered good

  if-HasRole :
      (role : Text) (t : Bool) (x y : W)
      → HasRole role x
      → HasRole role y
      → HasRole role (if t then x else y)
  if-HasRole role true x y hx hy = hx
  if-HasRole role false x y hx hy = hy

  unless-HasRole :
      (role : Text) (failed : Option Error) (x y : W)
      → HasRole role x
      → HasRole role y
      → HasRole role (elim failed [ some e ↦ x | none ↦ y ])
  unless-HasRole role (some e) x y hx hy = hx
  unless-HasRole role none x y hx hy = hy

  control_account-HasRole :
      (role : Text) (w : W) → HasRole role w → HasRole role (control_account b cfg w)
  unfolding control_account ensure_role create_client
  control_account-HasRole role w h =
      let h1 = laws.keeps role _ w h in
      if-HasRole role _ _ _ h (unless-HasRole role _ _ _ h1 (laws.keeps role _ _ h1))

  service_accounts-HasRole :
      (role : Text) (w : W) → HasRole role w → HasRole role (service_accounts b cfg w)
  unfolding service_accounts ensure_role create_client
  service_accounts-HasRole role w h =
      let h1 = laws.keeps role _ w h in
      let h2 = laws.keeps role _ _ h1 in
      if-HasRole role _ _ _ h (
        unless-HasRole role _ _ _ h1
          (unless-HasRole role _ _ _ h2 (control_account-HasRole role _ h2)))

  -- The answer `true` means that the role of the devices is there.
  abbrev IsReady : Bool × W → Type 0
  IsReady (ready, w) = ready ≡ true → HasRole device_role_name w

  if-IsReady :
      (t : Bool) (x y : Bool × W)
      → (t ≡ true → IsReady x)
      → (t ≡ false → IsReady y)
      → IsReady (if t then x else y)
  if-IsReady true x y hx hy = hx refl
  if-IsReady false x y hx hy = hy refl

  unless-IsReady :
      (failed : Option Error) (x y : Bool × W)
      → IsReady x
      → (failed ≡ none → IsReady y)
      → IsReady (elim failed [ some e ↦ x | none ↦ y ])
  unless-IsReady (some e) x y hx hy = hx
  unless-IsReady none x y hx hy = hy refl

  attempt-IsReady : (w : W) → IsReady (attempt_dynsec_bootstrap b cfg w)
  unfolding attempt_dynsec_bootstrap
  attempt-IsReady w =
      let (unconnected, w1) = connect b (dynsec_config cfg) w in
      let (failed, w2) = ensure_role b device_role_name device_role_text device_acls w1 in
      unless-IsReady unconnected (false, w1) _ (λ up. cc)
        (λ connected.
          unless-IsReady failed (false, b.disconnect w2) (true, service_accounts b cfg w2)
            (λ up. cc)
            (λ fine up.
              service_accounts-HasRole device_role_name w2
                (ensure_role-HasRole device_role_name device_role_text device_acls w1 fine)))

  retry-IsReady :
      (wait : W → Bool × W) (attempts : ℕ) (w : W) → IsReady (retry b cfg wait attempts w)
  unfolding retry
  retry-IsReady wait zero w = λ up. cc
  retry-IsReady wait (suc attempts) w =
      let (ready, w1) = attempt_dynsec_bootstrap b cfg w in
      let (cancelled, w2) = wait w1 in
      if-IsReady ready (true, w1) _ (λ up answered. attempt-IsReady w up)
        (λ down.
          if-IsReady (nat_eq attempts 0) (false, w1) _ (λ last up. cc)
            (λ more.
              if-IsReady cancelled (false, w2) _ (λ over up. cc)
                (λ going. retry-IsReady wait attempts w2)))

  -- Where a createRole that the broker answers without an error, or because the role exists, leaves
  -- the role there, and no command takes a role away: if connectDynsec answers a client, after
  -- whatever failures of its attempts, the role of the devices is there.
  pub connect_dynsec-HasRole :
      (wait : W → Bool × W) (w : W)
      → (connect_dynsec b cfg wait w).0 ≡ true
      → HasRole device_role_name (connect_dynsec b cfg wait w).1
  unfolding connect_dynsec
  connect_dynsec-HasRole wait w =
      if-IsReady (is_empty cfg.mqtt_admin_user || is_empty cfg.mqtt_admin_pass) (false, w) _
        (λ unset up. cc) (λ set. retry-IsReady wait 3 w)
