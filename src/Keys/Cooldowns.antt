-- ===== src/Keys/Cooldowns.antt =====
-- internal/key_state.go: what a key's failures and recoveries mean for later selections.
use buzzhive.Base.{
  ℕ, zero, suc, ◌%◌, ltb, ◌&&◌, inl, inr, Option-cases, ◌+◌, ◌*◌, ◌≤◌, ◌<◌, ◌≡◌, refl, ap, ◌∙◌,
  ◌++◌, List, [], ◌∷◌, Bool, true, false, not, Option, none, some, Text, text, text_eq, nat_eq,
  ◌==◌, length, get_elem?, filter, find, ◌≢◌, arith, if◌then◌else◌,
}
use buzzhive.Base.Maps.{get_or}
use buzzhive.Base.Eq.{bytes_beq_iff}
use buzzhive.Base.Bytes.{has_suffix}
use buzzhive.Types.{ApiKey, RouteTarget, millisecond, hour}
use buzzhive.Keys.{
  KeyState, cooldown_key, is_cooling, try_key, next_from, next_for, mark_exhausted_until,
  mark_redis_exhausted, mark_error, remove, clear_error, mark_healthy, flush, replace,
  snapshot_exhausted, same_api_key,
}
use buzzhive.Keys.Invariant.{
  IsValid, Call, selects, exhausts, exhausts_shared, removes, heals, flushes, replaces, fails,
  clears, snapshots, step, run, try_key_inv, next_from-Advanced, exhaust_fields, exhaust-IsValid,
  remove-IsValid, run-IsValid,
}
use buzzhive.Keys.Selection.{eligible, Selected, nothing, chosen, next_for-Selected, find-none}

-- Calls that forget how often an entry was exhausted.
unfoldable pub forgets : Text → Call → Bool
forgets id (removes key) = has_suffix id (text "::" ++ key.name)
forgets id (heals model key) = cooldown_key model key.name == id
forgets id flushes = true
forgets id (replaces keys) = true
forgets id _ = false

abbrev pub Keeps : Text → List Call → Type 0
Keeps id [] = Unit {0}
Keeps id (c ∷ cs) = (forgets id c ≡ false) × Keeps id cs

-- A call that does not forget an entry does not lower its count, nor change the durations.
hits_step :
    (k : KeyState) (id : Text) (c : Call)
    → forgets id c ≡ false
    → get_or (k.cooldown_hits id) 0 ≤ get_or ((step k c).cooldown_hits id) 0
unfolding forgets step next_for mark_exhausted_until mark_redis_exhausted mark_error remove
    clear_error mark_healthy snapshot_exhausted
hits_step k id (selects model target now) h =
    let a = next_from-Advanced (length k.keys) 0 k model target now in
    omega (arith, ap (λ (hits : Text → Option ℕ). get_or (hits id) 0) a.same_hits)
hits_step k id (exhausts model key now jitter) h =
    ground (arith, bytes_beq_iff (cooldown_key model key.name) id)
hits_step k id (exhausts_shared model key expires_at rpd now) h = ground arith
hits_step k id (removes key) h = ground arith
hits_step k id (heals model key) h = ground arith
hits_step k id flushes h = cc
hits_step k id (replaces keys) h = cc
hits_step k id _ h = ground arith

same_rpd : (k : KeyState) (c : Call) → (step k c).rpd_cooldown ≡ k.rpd_cooldown
unfolding step next_for mark_exhausted_until mark_redis_exhausted mark_error remove clear_error
    mark_healthy flush replace snapshot_exhausted
same_rpd k (selects model target now) =
    (next_from-Advanced (length k.keys) 0 k model target now).same_rpd
same_rpd k (exhausts model key now jitter) = ground arith
same_rpd k (exhausts_shared model key expires_at rpd now) = ground arith
same_rpd k _ = refl

hits_run :
    (k : KeyState) (id : Text) (calls : List Call)
    → Keeps id calls
    → (get_or (k.cooldown_hits id) 0 ≤ get_or ((run k calls).cooldown_hits id) 0)
      × ((run k calls).rpd_cooldown ≡ k.rpd_cooldown)
unfolding run
hits_run k id [] h = (omega arith, refl)
hits_run k id (c ∷ calls) h =
    let rest = hits_run (step k c) id calls h.1 in
    (omega (arith, hits_step k id c h.0, rest.0), rest.1 ∙ same_rpd k c)

-- How long a key rests that was exhausted before.
abbrev pub long_rest : KeyState → ℕ
long_rest k = if k.rpd_cooldown == 0 then hour else k.rpd_cooldown

counted_once :
    (k : KeyState) (model : Text) (key : ApiKey) (now jitter : ℕ)
    → 1
      ≤ get_or
          ((mark_exhausted_until k model key now jitter).0.cooldown_hits
            (cooldown_key model key.name))
          0
unfolding mark_exhausted_until
counted_once k model key now jitter =
    ground (arith, bytes_beq_iff (cooldown_key model key.name) (cooldown_key model key.name))

counted_again :
    (k : KeyState) (model : Text) (key : ApiKey) (now jitter : ℕ)
    → 1 ≤ get_or (k.cooldown_hits (cooldown_key model key.name)) 0
    → let r = mark_exhausted_until k model key now jitter in
      (r.1 ≡ now + (long_rest k + jitter * millisecond))
      × (r.2 ≡ true)
      × (r.0.exhausted (cooldown_key model key.name) ≡ some r.1)
      × (r.0.rpd_like (cooldown_key model key.name) ≡ some true)
unfolding mark_exhausted_until
counted_again k model key now jitter h =
    ground (arith, bytes_beq_iff (cooldown_key model key.name) (cooldown_key model key.name))

module _ (k : KeyState) (model : Text) (key : ApiKey) (now jitter : ℕ) where
  -- When `MarkExhausted` is called again for a key, with no call in between that forgets its first one,
  -- the end that it returns is the long cooldown of the state (an hour if that is 0) and the jitter later;
  -- the state rests the key up to that end and marks it as out of its daily quota.
  pub exhausted_again :
      (calls : List Call) (later again : ℕ)
      → Keeps (cooldown_key model key.name) calls
      → let r =
          mark_exhausted_until
            (run (mark_exhausted_until k model key now jitter).0 calls)
            model
            key
            later
            again in
        (r.1 ≡ later + (long_rest k + again * millisecond))
        × (r.2 ≡ true)
        × (r.0.exhausted (cooldown_key model key.name) ≡ some r.1)
        × (r.0.rpd_like (cooldown_key model key.name) ≡ some true)
  unfolding step
  exhausted_again calls later again h =
      let k' = (mark_exhausted_until k model key now jitter).0 in
      let kept = hits_run k' (cooldown_key model key.name) calls h in
      let result =
        counted_again (run k' calls) model key later again
          (omega (arith, counted_once k model key now jitter, kept.0)) in
      let same : (run k' calls).rpd_cooldown ≡ k.rpd_cooldown =
        kept.1 ∙ same_rpd k (exhausts model key now jitter) in
      (
        result.0 ∙ ap (λ d. later + ((if d == 0 then hour else d) + again * millisecond)) same,
        result.1,
        result.2,
        result.3,
      )

  -- A key that recovered, or was never exhausted, rests for the short cooldown and the jitter.
  pub exhausted_after_recovery :
      let r = mark_exhausted_until (mark_healthy k model key) model key now jitter in
      (r.1 ≡ now + (k.cooldown + jitter * millisecond)) × (r.2 ≡ false)
  unfolding mark_exhausted_until mark_healthy
  exhausted_after_recovery =
      ground (arith, bytes_beq_iff (cooldown_key model key.name) (cooldown_key model key.name))

-- The key that a selection returns, by its place.
Selected-place :
    (k : KeyState) (model : Text) (target : RouteTarget) (now : ℕ) {r : KeyState × Option ApiKey}
    {key : ApiKey}
    → Selected k model target now r
    → r.1 ≡ some key
    → (i : ℕ) × (get_elem? k.keys i ≡ some key) × (eligible k model target now key ≡ true)
Selected-place k model target now (nothing _) e = cc
Selected-place k model target now (chosen i key' at good) e = (i, ground arith, ground arith)

-- Calls that leave a rest up to an instant as it is: no selection or snapshot from then on, and none that
-- exhausts the same entry again, forgets it or replaces the keys.
unfoldable pub keeps_rest : Text → ℕ → Call → Bool
keeps_rest id until (selects model target now) = ltb now until
keeps_rest id until (exhausts model key now jitter) = not (cooldown_key model key.name == id)
keeps_rest id until (exhausts_shared model key expires_at rpd now) =
    not (cooldown_key model key.name == id)
keeps_rest id until (fails model key status message now) = true
keeps_rest id until (removes key) = not (has_suffix id (text "::" ++ key.name))
keeps_rest id until (clears key) = true
keeps_rest id until (heals model key) = not (cooldown_key model key.name == id)
keeps_rest id until flushes = false
keeps_rest id until (replaces keys) = false
keeps_rest id until (snapshots now) = ltb now until

unfoldable pub all_keep_rest : Text → ℕ → List Call → Bool
all_keep_rest id until [] = true
all_keep_rest id until (c ∷ cs) = keeps_rest id until c && all_keep_rest id until cs

try_key_rests :
    (id : Text) (until : ℕ) (k : KeyState) (model : Text) (target : RouteTarget) (now idx : ℕ)
    {k' : KeyState} {key : ApiKey}
    → now < until
    → k.exhausted id ≡ some until
    → try_key k model target now idx ≡ some (k', key)
    → k'.exhausted id ≡ some until
unfolding is_cooling
try_key_rests id until k model target now idx {key = key} soon rests found =
    let (_, _, free, moved) = try_key_inv k model target now idx found in
    let apart : cooldown_key model key.name ≢ id =
      λ same. ground (arith, free, ap k.exhausted same, rests, soon) in
    ap (λ (x : KeyState). x.exhausted id) moved
    ∙ ground (arith, rests, apart, bytes_beq_iff (cooldown_key model key.name) id)

next_from_rests :
    (id : Text) (until rounds i : ℕ) (k : KeyState) (model : Text) (target : RouteTarget) (now : ℕ)
    → now < until
    → k.exhausted id ≡ some until
    → (next_from rounds i k model target now).0.exhausted id ≡ some until
unfolding next_from
next_from_rests id until zero i k model target now soon rests = rests
next_from_rests id until (suc rounds) i k model target now soon rests =
    elim (Option-cases (try_key k model target now ((k.next + i) % length k.keys))) [
      | inl e ↦
          rw (e, next_from) (next_from_rests id until rounds (i + 1) k model target now soon rests)
      | inr ((k', key), e) ↦
          rw (e, next_from) (try_key_rests id until k model target now _ soon rests e)
    ]

step_rests :
    (id : Text) (until : ℕ) (k : KeyState) (c : Call)
    → keeps_rest id until c ≡ true
    → k.exhausted id ≡ some until
    → (step k c).exhausted id ≡ some until
unfolding keeps_rest step next_for mark_exhausted_until mark_redis_exhausted mark_error remove
    clear_error mark_healthy snapshot_exhausted
step_rests id until k (selects model target now) keeps rests =
    next_from_rests id until (length k.keys) 0 k model target now (ground (arith, keeps)) rests
step_rests id until k (exhausts model key now jitter) keeps rests = ground (arith, keeps, rests)
step_rests id until k (exhausts_shared model key expires_at rpd now) keeps rests =
    ground (arith, keeps, rests)
step_rests id until k (removes key) keeps rests = ground (arith, keeps, rests)
step_rests id until k (heals model key) keeps rests = ground (arith, keeps, rests)
step_rests id until k flushes keeps rests = cc
step_rests id until k (replaces keys) keeps rests = cc
step_rests id until k (snapshots now) keeps rests = ground (arith, keeps, rests)
step_rests id until k _ keeps rests = rests

run_rests :
    (id : Text) (until : ℕ) (k : KeyState) (cs : List Call)
    → all_keep_rest id until cs ≡ true
    → k.exhausted id ≡ some until
    → (run k cs).exhausted id ≡ some until
unfolding all_keep_rest run
run_rests id until k [] keeps rests = rests
run_rests id until k (c ∷ cs) keeps rests =
    run_rests id until (step k c) cs (ground arith) (step_rests id until k c (ground arith) rests)

exhausted_entry :
    (k : KeyState) (model : Text) (key : ApiKey) (now jitter : ℕ)
    → let r = mark_exhausted_until k model key now jitter in
      r.0.exhausted (cooldown_key model key.name) ≡ some r.1
unfolding mark_exhausted_until
exhausted_entry k model key now jitter =
    ground (arith, bytes_beq_iff (cooldown_key model key.name) (cooldown_key model key.name))

-- Before the end that an exhaustion in a valid state names, no selection for the model returns a key of that
-- name, whatever selections and snapshots before that end, failures and calls for other entries come in
-- between: any but those that exhaust the entry again, forget it or replace the keys.
pub resting_not_selected :
    (k : KeyState) (model : Text) (key : ApiKey) (now jitter : ℕ) (calls : List Call)
    (target : RouteTarget) (later : ℕ) {key' : ApiKey}
    → IsValid k
    → let r = mark_exhausted_until k model key now jitter in
      all_keep_rest (cooldown_key model key.name) r.1 calls ≡ true
      → later < r.1
      → (next_for (run r.0 calls) model target later).1 ≡ some key'
      → key'.name ≢ key.name
unfolding eligible is_cooling
resting_not_selected k model key now jitter calls target later {key' = key'} v keep early e same =
    let r = mark_exhausted_until k model key now jitter in
    let k' = run r.0 calls in
    let rests =
      run_rests (cooldown_key model key.name) r.1 r.0 calls keep
        (exhausted_entry k model key now jitter) in
    let found =
      Selected-place k' model target later
        (next_for-Selected k' model target later
          (run-IsValid r.0 calls (exhaust-IsValid k model key now jitter v)))
        e in
    ground (arith, found.2, rests, early, ap (λ name. k'.exhausted (cooldown_key model name)) same)

Absent : ApiKey → KeyState → Type 0
Absent key k = find (λ item. same_api_key item key) k.keys ≡ none

find-filter :
    (test keep : ApiKey → Bool) (xs : List ApiKey)
    → find test xs ≡ none
    → find test (filter keep xs) ≡ none
find-filter test keep [] e = refl
find-filter test keep (x ∷ xs) e = ground (arith, find-filter test keep xs)

find-filter-not :
    (test : ApiKey → Bool) (xs : List ApiKey) → find test (filter (λ x. not (test x)) xs) ≡ none
find-filter-not test [] = refl
find-filter-not test (x ∷ xs) = ground (arith, find-filter-not test xs)

abbrev pub is_replace : Call → Bool
is_replace (replaces keys) = true
is_replace _ = false

abbrev pub NoReplace : List Call → Type 0
NoReplace [] = Unit {0}
NoReplace (c ∷ cs) = (is_replace c ≡ false) × NoReplace cs

step-Absent :
    (k : KeyState) (key : ApiKey) (c : Call)
    → is_replace c ≡ false
    → Absent key k
    → Absent key (step k c)
unfolding Absent step next_for mark_redis_exhausted mark_error remove clear_error mark_healthy flush
    snapshot_exhausted
step-Absent k key (selects model target now) h a =
    ap (find _) (next_from-Advanced (length k.keys) 0 k model target now).same_keys ∙ a
step-Absent k key (exhausts model key' now jitter) h a =
    ap (find _) (exhaust_fields k model key' now jitter).0 ∙ a
step-Absent k key (exhausts_shared model key' expires_at rpd now) h a = ground arith
step-Absent k key (removes key') h a = find-filter _ _ k.keys a
step-Absent k key (replaces keys) h a = cc
step-Absent k key _ h a = a

run-Absent :
    (k : KeyState) (key : ApiKey) (calls : List Call)
    → NoReplace calls
    → Absent key k
    → Absent key (run k calls)
unfolding run
run-Absent k key [] h a = a
run-Absent k key (c ∷ calls) h a = run-Absent (step k c) key calls h.1 (step-Absent k key c h.0 a)

-- A key that was removed from a valid state is not selected, and no key that counts as the same one, whatever calls
-- follow, until the key list is replaced.
pub removed_not_selected :
    (k : KeyState) (key : ApiKey) (calls : List Call) (model : Text) (target : RouteTarget)
    (now : ℕ) {key' : ApiKey}
    → IsValid k
    → NoReplace calls
    → (next_for (run (remove k key) calls) model target now).1 ≡ some key'
    → same_api_key key' key ≡ false
unfolding remove Absent
removed_not_selected k key calls model target now {key' = key'} v h e =
    let k' = run (remove k key) calls in
    let found =
      Selected-place k' model target now
        (next_for-Selected k' model target now
          (run-IsValid (remove k key) calls (remove-IsValid k key v)))
        e in
    find-none (λ item. same_api_key item key) k'.keys found.0 key'
      (run-Absent (remove k key) key calls h
        (find-filter-not (λ item. same_api_key item key) k.keys))
      found.1
