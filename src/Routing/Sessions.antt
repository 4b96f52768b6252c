-- ===== src/Routing/Sessions.antt =====
-- internal/route_session.go: a user's later requests for a model try the route that last answered.
use buzzhive.Base.{
  ℕ, zero, suc, ◌+◌, ◌≤◌, ◌<◌, ◌≡◌, refl, sym, ◌∙◌, ap, List, [], ◌∷◌, Option, none, some, Text,
  text_eq, nat_eq, ◌==◌, inl, inr, Bool-cases, leb, leb→le, length, get_or, get_elem?, arith, ◌≢◌,
}
use buzzhive.Base.Eq.{bytes_beq_iff}
use buzzhive.Types.{RouteTarget, RouteSession}
use buzzhive.Routing.{
  Router, zero_target, index_of, route_session, remember_route_session, apply_session, new_session,
  prefer_route_session_target, route_session_ttl,
}

pub index_of_found :
    (id : ℕ) (ts : List RouteTarget) (i : ℕ)
    → index_of id ts ≡ some i
    → (i < length ts) × ((get_or ts i zero_target).id ≡ id)
unfolding index_of
index_of_found id [] i e = cc
index_of_found id (t ∷ ts) zero e = ground (arith, index_of_found id ts 0)
index_of_found id (t ∷ ts) (suc i) e = ground (arith, index_of_found id ts i)

index_of_listed :
    (ts : List RouteTarget) (j : ℕ) (t : RouteTarget)
    → get_elem? ts j ≡ some t
    → (i : ℕ) × (index_of t.id ts ≡ some i)
unfolding index_of
index_of_listed [] j t e = cc
index_of_listed (u ∷ ts) zero t e = (0, ground arith)
index_of_listed (u ∷ ts) (suc j) t e = elim (Bool-cases (u.id == t.id)) [
  | inl hit ↦ (0, ground arith)
  | inr miss ↦ let (i, at) = index_of_listed ts j t e in (suc i, ground arith)
]

apply_session_first :
    (r : Router) (key : Text) (targets : List RouteTarget) (session : RouteSession) (i : ℕ)
    → session.model_route_id ≢ 0
    → index_of session.model_route_id targets ≡ some i
    → (get_or (apply_session r key targets session).1 0 zero_target).id ≡ session.model_route_id
unfolding apply_session
apply_session_first r key targets session i known at =
    ground (arith, index_of_found session.model_route_id targets i at)

lone_target :
    (targets : List RouteTarget) (j : ℕ) (t : RouteTarget)
    → get_elem? targets j ≡ some t
    → length targets ≤ 1
    → get_or targets 0 zero_target ≡ t
lone_target [] j t e h = cc
lone_target (u ∷ []) zero t e h = ground arith
lone_target (u ∷ []) (suc j) t e h = cc
lone_target (u ∷ v ∷ ts) j t e h = absurd (omega arith)

remembered_session :
    (r : Router) (key : Text) (t : RouteTarget) (now later : ℕ)
    → t.id ≢ 0
    → later ≤ now + route_session_ttl
    → (route_session (remember_route_session r key t now) none key later).1
      ≡ some (new_session t now)
unfolding remember_route_session route_session
remembered_session r key t now later live early = ground (arith, bytes_beq_iff key key)

-- What the shared cache answers of a route: nothing, or a session of this route.
abbrev pub Agrees : Option RouteSession → RouteTarget → Type 0
Agrees shared t = (session : RouteSession) → shared ≡ some session → session.model_route_id ≡ t.id

-- A target of the route's identifier is tried first if a session of the route is found.
pub found_first :
    (r : Router) (shared : Option RouteSession) (key : Text) (t : RouteTarget)
    (targets : List RouteTarget) (j now : ℕ) (session : RouteSession)
    → t.id ≢ 0
    → get_elem? targets j ≡ some t
    → (route_session r shared key now).1 ≡ some session
    → session.model_route_id ≡ t.id
    → (get_or (prefer_route_session_target r shared key targets now).1 0 zero_target).id ≡ t.id
unfolding prefer_route_session_target
found_first r shared key t targets j now session live at found same =
    let (i, listed) = index_of_listed targets j t at in
    elim (Bool-cases (leb (length targets) 1)) [
      | inl few ↦
          rw few (ap (λ (u : RouteTarget). u.id) (lone_target targets j t at (leb→le _ _ few)))
      | inr many ↦
          rw (many, found)
            (apply_session_first (route_session r shared key now).0 key targets session i
                (λ unset. live (sym same ∙ unset)) (ap (λ id. index_of id targets) same ∙ listed)
              ∙ same)
    ]

-- After a target with an identifier answered and its route was remembered, up to half an hour later, a
-- request that has this target among its targets tries a target of that identifier first, whether the
-- shared cache answers nothing or a session of the same route.
pub remembered_first :
    (r : Router) (shared : Option RouteSession) (key : Text) (t : RouteTarget)
    (targets : List RouteTarget) (j now later : ℕ)
    → Agrees shared t
    → t.id ≢ 0
    → get_elem? targets j ≡ some t
    → later ≤ now + route_session_ttl
    → (get_or
        (prefer_route_session_target
          (remember_route_session r key t now)
          shared
          key
          targets
          later).1
        0
        zero_target).id
      ≡ t.id
remembered_first r none key t targets j now later agrees live at early =
    found_first (remember_route_session r key t now) none key t targets j later (new_session t now)
      live at (remembered_session r key t now later live early) refl
remembered_first r (some session) key t targets j now later agrees live at early =
    found_first (remember_route_session r key t now) (some session) key t targets j later session
      live at (unfold route_session in refl) (agrees session refl)
