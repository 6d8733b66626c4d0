-- ===== src/Acme/Order/Creation.antt =====
-- internal/acme/order.go: what a new order and its authorizations hold.
use ad_pki_ca.Base.{
  ℕ, false, ◌≡◌, refl, List, [], ◌∷◌, String, map, All, arith, has_slash, has_prefix, if◌then◌else◌,
  after_last_slash, after_last_slash-link, Option-cases, inl, inr,
}
use ad_pki_ca.Base64.{encode_url-has_slash}
use ad_pki_ca.Env.{Env}
use ad_pki_ca.World.{World, ok, ◌>>=◌, pure, reads}
use ad_pki_ca.World.Laws.{>>=-eq-ok}
use ad_pki_ca.Acme.Types.{
  Identifier, Order, Challenge, Authorization, order_pending, authz_pending, challenge_pending,
}
use ad_pki_ca.Acme.Account.{new_id}
use ad_pki_ca.Acme.Order.{
  new_order_id, new_authorization, new_authorizations, new_order, authz_url, order_for,
}

-- The challenge types that an identifier is offered.
abbrev pub offered : Identifier → List String
offered i = if has_prefix "*." i.value then "dns-01" ∷ [] else "dns-01" ∷ "http-01" ∷ []

-- A new authorization of an identifier, for an account's order.
pub record IsNew (account_id order_id : String) (i : Identifier) (a : Authorization) : Type 0 where
  pub account : a.account_id ≡ account_id
  pub order : a.order_id ≡ order_id
  pub identifier : a.identifier ≡ i
  pub status : a.status ≡ authz_pending
  pub offers : map (λ (c : Challenge). c.kind) a.challenges ≡ offered i
  pub open_challenges : All (λ (c : Challenge). c.status ≡ challenge_pending) a.challenges
  pub name : has_slash a.id ≡ false

module _ (env : Env) where
  pub new_id-has_slash :
      (n : ℕ) (w v : World) (id : String) → new_id env n w ≡ (ok id, v) → has_slash id ≡ false
  unfolding new_id
  new_id-has_slash n w v id h = elim (Option-cases (env.random w.draws n)) [
    | inl e ↦ ground (arith, e)
    | inr (bytes, e) ↦ ground (arith, e, encode_url-has_slash bytes)
  ]

  new_authorization-IsNew :
      (account_id order_id : String) (i : Identifier) (base : String) (w v : World)
      (a : Authorization)
      → new_authorization env account_id order_id i base w ≡ (ok a, v)
      → IsNew account_id order_id i a
  unfolding new_authorization
  new_authorization-IsNew account_id order_id i base w v a h =
      elim (Option-cases (env.random w.draws 12)) [
        | inl e ↦ ground (arith, e)
        | inr (bytes, e) ↦ ground (arith, e, encode_url-has_slash bytes)
      ]

  -- The authorizations of a list of identifiers, one for each, in their order.
  abbrev pub AreNew : String → String → List Identifier → List Authorization → Type 0
  AreNew account_id order_id [] [] = Unit {0}
  AreNew account_id order_id (i ∷ is') (a ∷ as') =
      IsNew account_id order_id i a × AreNew account_id order_id is' as'
  AreNew account_id order_id _ _ = ⊥

  new_authorizations-AreNew :
      (account_id order_id : String) (is' : List Identifier) (base : String) (w v : World)
      (as' : List Authorization)
      → new_authorizations env account_id order_id is' base w ≡ (ok as', v)
      → AreNew account_id order_id is' as'
  unfolding new_authorizations
  new_authorizations-AreNew account_id order_id [] base w v as' h = ground arith
  new_authorizations-AreNew account_id order_id (i ∷ is') base w v as' h =
      let (a, u, first, h₁) =
        >>=-eq-ok (new_authorization env account_id order_id i base)
          (λ authz.
            (new_authorizations env account_id order_id is' base >>= λ rest. pure (authz ∷ rest)))
          w v as' h in
      let (rest, u', more, h₂) =
        >>=-eq-ok (new_authorizations env account_id order_id is' base) (λ rest. pure (a ∷ rest)) u
          v as' h₁ in
      ground (
        arith,
        new_authorization-IsNew account_id order_id i base w u a first,
        new_authorizations-AreNew account_id order_id is' base u u' rest more,
      )

  -- The links that an order keeps lead back to its authorizations' ids.
  links-lead_back :
      (account_id order_id base : String) (is' : List Identifier) (as' : List Authorization)
      → AreNew account_id order_id is' as'
      → map after_last_slash (map (λ (a : Authorization). authz_url env base a.id) as')
        ≡ map (λ (a : Authorization). a.id) as'
  links-lead_back account_id order_id base [] [] h = refl
  links-lead_back account_id order_id base [] (a ∷ as') h = absurd h
  links-lead_back account_id order_id base (i ∷ is') [] h = absurd h
  links-lead_back account_id order_id base (i ∷ is') (a ∷ as') (new, rest) =
      rw (after_last_slash-link base a.id new.name)
        (ground (arith, links-lead_back account_id order_id base is' as' rest))

  -- A new order belongs to the account, is pending, and has exactly one new authorization for each
  -- identifier, in their order: pending, with pending challenges, dns-01 always and http-01 unless
  -- the identifier is a wildcard. `UpdateOrderStatus` finds the ids of these authorizations in the
  -- order's links.
  pub new_order_lem :
      (account_id : String) (is' : List Identifier) (base : String) (w v : World) (o : Order)
      (as' : List Authorization)
      → new_order env account_id is' base w ≡ (ok (o, as'), v)
      → (o.account_id ≡ account_id)
        × (o.status ≡ order_pending)
        × (o.identifiers ≡ is')
        × AreNew account_id o.id is' as'
        × (map after_last_slash o.authorizations ≡ map (λ (a : Authorization). a.id) as')
  unfolding new_order
  new_order_lem account_id is' base w v o as' h =
      let (id, u, drew, h₁) =
        >>=-eq-ok (new_order_id env)
          (λ id.
            (new_authorizations env account_id id is' base >>= λ l.
            (reads (λ w. w.now) >>= λ now. pure (order_for env account_id is' base id l now, l))))
          w v (o, as') h in
      let (l, u', made, h₂) =
        >>=-eq-ok (new_authorizations env account_id id is' base)
          (λ l.
            (reads (λ w. w.now) >>= λ now. pure (order_for env account_id is' base id l now, l)))
          u v (o, as') h₁ in
      let new = new_authorizations-AreNew account_id id is' base u u' l made in
      ground (arith, new, links-lead_back account_id id base is' l new)
