-- ===== src/Acme/Order/Status.antt =====
-- internal/acme/order.go: what `UpdateOrderStatus` computes and stores.
use ad_pki_ca.Base.{
  Bool, true, false, ◌&&◌, ◌||◌, ◌≡◌, List, [], ◌∷◌, String, ◌==◌, all, any, arith, if◌then◌else◌,
  after_last_slash,
}
use ad_pki_ca.Env.{Env}
use ad_pki_ca.World.{World, Outcome, ok, err}
use ad_pki_ca.Acme.Types.{
  Order, Authorization, authz_valid, authz_invalid, order_ready, order_invalid,
}
use ad_pki_ca.Acme.Storage.{load_order, save_order, load_authz}
use ad_pki_ca.Acme.Storage.Laws.{load_order-save_order}
use ad_pki_ca.Acme.Order.{saw, scan, update_order_status}

-- An authorization was loaded, with a status.
abbrev pub is_in : String → Outcome String Authorization → Bool
is_in status (err _) = false
is_in status (ok a) = a.status == status

saw-eq :
    (f : Bool × Bool → Bool × Bool) (p q : Bool)
    → ((a b : Bool) → f (a, b) ≡ (a && p, b || q))
    → (o : Outcome String Authorization) (a b : Bool)
    → f (saw o (a, b)) ≡ (a && (is_in authz_valid o && p), b || (is_in authz_invalid o || q))
saw-eq f p q h (err e) a b = ground (arith, h false b)
saw-eq f p q h (ok x) a b = ground (
  arith,
  h (if x.status == authz_valid then a else false) (if x.status == authz_invalid then true else b),
)

module _ (env : Env) (w : World) where
  -- The authorization behind a link can be loaded and has a status.
  abbrev pub has_status : String → String → Bool
  has_status status link = is_in status (load_authz env (after_last_slash link) w).0

  scan-eq :
      (links : List String) (a b : Bool)
      → scan env w links (a, b)
        ≡ (a && all (has_status authz_valid) links, b || any (has_status authz_invalid) links)
  unfolding scan
  scan-eq [] a b = ground arith
  scan-eq (l ∷ ls) a b =
      saw-eq (scan env w ls) (all (has_status authz_valid) ls) (any (has_status authz_invalid) ls)
        (scan-eq ls) (load_authz env (after_last_slash l) w).0 a b

  -- The status that an order's authorizations give it: "invalid" if one of them is invalid, "ready"
  -- if all of them are there and valid, and otherwise the one that it has.
  abbrev pub aggregate : Order → String
  aggregate o =
      if any (has_status authz_invalid) o.authorizations
      then order_invalid
      else if all (has_status authz_valid) o.authorizations
      then order_ready
      else o.status

  -- `UpdateOrderStatus` loads the order, gives it the status that its authorizations call for, and
  -- saves it: if the save goes through, that is the order that is loaded from then on.
  pub update_order_status_lem :
      (id : String) (o : Order) (v : World)
      → load_order env id w ≡ (ok o, w)
      → save_order env (record o { status = aggregate o }) w ≡ (ok tt, v)
      → (update_order_status env id w ≡ (ok tt, v))
        × (load_order env o.id v ≡ (ok (record o { status = aggregate o }), v))
  unfolding update_order_status
  update_order_status_lem id o v h k = (
    ground (arith, scan-eq o.authorizations true false),
    load_order-save_order env (record o { status = aggregate o }) w v k,
  )
