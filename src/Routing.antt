-- ===== src/Routing.antt =====
-- internal/provider.go and internal/route_session.go: which upstream targets a request tries, and in
-- what order. The router's state is the part of `Server` under `routeMu`; each function holds the
-- mutex once. Answers of the shared cache are arguments: `none` is a miss or an error. The calls of
-- `SetRouteSession` and `DeleteRouteSession` on it are kept in `told`; what they return is dropped.
pub mod Rotation
pub mod Weights
pub mod Sessions
pub mod Affinity
use buzzhive.Base.{
  ℕ, zero, suc, ◌+◌, ◌*◌, ◌%◌, ◌++◌, List, [], ◌∷◌, map, Bool, true, false, not, ◌&&◌, Option, none,
  some, Text, text, text_eq, nat_eq, ◌==◌, Map, ltb, leb, if◌then◌else◌, length, get_or, take, drop,
  replicate,
}
use buzzhive.Base.Maps
use buzzhive.Base.Maps.{empty, insert, delete}
use buzzhive.Types.{RouteTarget, RouteSession, AuthToken, minute}

-- A call on the shared cache that writes.
pub data SessionCall : Type 0 where
  sets_session : Text → RouteSession → SessionCall
  deletes_session : Text → SessionCall

pub record Router : Type 0 where
  pub route_next : Map Text ℕ
  pub route_sessions : Map Text RouteSession
  pub told : List SessionCall  -- newest first

-- The zero value of the Go struct.
abbrev pub zero_target : RouteTarget
zero_target = record {
  id = 0;
  selection_policy = [];
  max_output_tokens = 0;
  provider_id = 0;
  provider_name = [];
  provider_type = [];
  route_protocol = [];
  upstream_model = [];
  weight = 0;
}

-- `append(targets[start:], targets[:start]...)`.
abbrev pub rotate_at : ℕ → List RouteTarget → List RouteTarget
rotate_at start targets = drop start targets ++ take start targets

-- The counter of a model, taken modulo `count`, and the router with the counter moved on.
unfoldable pub advance_counter : Router → Text → ℕ → Router × ℕ
advance_counter r model count =
    let start = Maps.get_or (r.route_next model) 0 % count in
    (record r { route_next = insert model ((start + 1) % count) r.route_next }, start)

abbrev pub clamp_weight : ℕ → ℕ
clamp_weight weight = if weight == 0 then 1 else if ltb 100 weight then 100 else weight

unfoldable pub expand_weighted_targets : List RouteTarget → List RouteTarget
expand_weighted_targets [] = []
expand_weighted_targets (t ∷ ts) = replicate (clamp_weight t.weight) t ++ expand_weighted_targets ts

-- The place of the first target with the identifier; 0 where the loop finds none.
unfoldable pub index_of : ℕ → List RouteTarget → Option ℕ
index_of id [] = none
index_of id (t ∷ ts) =
    if t.id == id then some 0 else elim (index_of id ts) [ none ↦ none | some i ↦ some (suc i) ]

unfoldable pub rotate_weighted_route_targets :
    Router → Text → List RouteTarget → Router × List RouteTarget
rotate_weighted_route_targets r model targets =
    let weighted = expand_weighted_targets targets in
    let (r', start) = advance_counter r model (length weighted) in
    let selected = get_or weighted start zero_target in
    (r', rotate_at (Maps.get_or (index_of selected.id targets) 0) targets)

unfoldable pub rotate_route_targets : Router → Text → List RouteTarget → Router × List RouteTarget
rotate_route_targets r model targets =
    if leb (length targets) 1
    then (r, targets)
    else if (get_or targets 0 zero_target).selection_policy == text "weighted"
    then rotate_weighted_route_targets r model targets
    else let (r', start) = advance_counter r model (length targets) in (r', rotate_at start targets)

-- The rank of a protocol in the order of preference: its last place in the list.
unfoldable pub rank_from : ℕ → List Text → Map Text ℕ
rank_from index [] protocol = none
rank_from index (p ∷ ps) protocol = elim (rank_from (index + 1) ps protocol) [
  | some later ↦ some later
  | none ↦ if p == protocol then some index else none
]

pub record Picks : Type 0 where
  pub selected : Map ℕ RouteTarget
  pub selected_rank : Map ℕ ℕ
  pub order : List ℕ

abbrev pub no_picks : Picks
no_picks = record { selected = empty; selected_rank = empty; order = [] }

-- What one row does to the choice; an `auto` route keeps the row of least rank.
unfoldable pub choose_ranked : Picks → RouteTarget → ℕ → Picks
choose_ranked c t rank =
    if not (t.route_protocol == text "auto")
    then record c { selected = insert t.id t c.selected; order = c.order ++ t.id ∷ [] }
    else elim (c.selected_rank t.id) [
      | none ↦ record {
        selected = insert t.id t c.selected;
        selected_rank = insert t.id rank c.selected_rank;
        order = c.order ++ t.id ∷ [];
      }
      | some current ↦ if leb current rank then c else record c {
        selected = insert t.id t c.selected;
        selected_rank = insert t.id rank c.selected_rank;
      }
    ]

unfoldable pub choose_row : Map Text ℕ → Picks → RouteTarget → Picks
unfolding choose_ranked
choose_row rank c t = elim (rank t.provider_type) [ none ↦ c | some n ↦ choose_ranked c t n ]

unfoldable pub choose_rows : Map Text ℕ → Picks → List RouteTarget → Picks
choose_rows rank c [] = c
choose_rows rank c (t ∷ ts) = choose_rows rank (choose_row rank c t) ts

unfoldable pub chosen_targets : Picks → List RouteTarget
chosen_targets c = map (λ id. Maps.get_or (c.selected id) zero_target) c.order

unfoldable pub select_route_targets :
    Router → Text → List RouteTarget → List Text → Router × List RouteTarget
unfolding chosen_targets
select_route_targets r model [] preference = (r, [])
select_route_targets r model (t ∷ ts) preference =
    rotate_route_targets r model
      (chosen_targets (choose_rows (rank_from 0 preference) no_picks (t ∷ ts)))

abbrev pub route_session_ttl : ℕ
route_session_ttl = 30 * minute

-- `strconv.FormatInt` is the parameter `format`.
module _ (format : ℕ → Text) where
  unfoldable pub route_session_storage_key : AuthToken → Text → Text
  route_session_storage_key user model =
      (if not (user.id == 0)
        then text "key:" ++ format user.id
        else if not (user.name == [])
        then text "name:" ++ user.name
        else if not (user.user_name == [])
        then text "user:" ++ user.user_name
        else text "local")
      ++ text "::"
      ++ model

-- `routeSession`: the shared cache first, then the sessions of this process.
unfoldable pub route_session :
    Router → Option RouteSession → Text → ℕ → Router × Option RouteSession
route_session r (some session) key now = (r, some session)
route_session r none key now = elim (r.route_sessions key) [
  | none ↦ (r, none)
  | some session ↦
      if ltb session.expires_at now
      then (record r { route_sessions = delete key r.route_sessions }, none)
      else (r, some session)
]

unfoldable pub delete_route_session : Router → Text → Router
delete_route_session r key = record r {
  route_sessions = delete key r.route_sessions;
  told = deletes_session key ∷ r.told;
}

abbrev pub new_session : RouteTarget → ℕ → RouteSession
new_session t now = record { model_route_id = t.id; expires_at = now + route_session_ttl }

-- `rememberRouteSession`.
unfoldable pub remember_route_session : Router → Text → RouteTarget → ℕ → Router
remember_route_session r key t now = if t.id == 0 then r else record r {
  route_sessions = insert key (new_session t now) r.route_sessions;
  told = sets_session key (new_session t now) ∷ r.told;
}

abbrev pub move_front : ℕ → List RouteTarget → List RouteTarget
move_front i targets = get_or targets i zero_target ∷ (take i targets ++ drop (i + 1) targets)

-- The loop of `preferRouteSessionTarget` and what follows it: a session for a route that is not among
-- the targets is deleted.
unfoldable pub apply_session :
    Router → Text → List RouteTarget → RouteSession → Router × List RouteTarget
apply_session r key targets session =
    if session.model_route_id == 0
    then (r, targets)
    else elim (index_of session.model_route_id targets) [
      | none ↦ (delete_route_session r key, targets)
      | some i ↦ (r, if i == 0 then targets else move_front i targets)
    ]

unfoldable pub prefer_route_session_target :
    Router → Option RouteSession → Text → List RouteTarget → ℕ → Router × List RouteTarget
prefer_route_session_target r shared key targets now =
    if leb (length targets) 1
    then (r, targets)
    else let (r', found) = route_session r shared key now in
      elim found [ none ↦ (r', targets) | some session ↦ apply_session r' key targets session ]
