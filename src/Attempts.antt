-- ===== src/Attempts.antt =====
-- internal/util.go and internal/provider.go: the attempts of one request, key by key and target by
-- target. The chain is kept as data, not as the text of `X-Proxy-Debug`; the request that is sent is
-- part of `forward`.
pub mod Bounds
pub mod Outcomes
use buzzhive.Base.{
  ℕ, zero, suc, ◌+◌, ◌-◌, ◌*◌, ◌++◌, List, [], ◌∷◌, Bool, true, false, not, ◌&&◌, ◌||◌, Option,
  none, some, Text, text, text_eq, nat_eq, ◌==◌, ltb, leb, if◌then◌else◌, length,
}
use buzzhive.Base.Bytes.{clip, contains, to_upper}
use buzzhive.Types.{ApiKey, RouteTarget, cooldown_model}
use buzzhive.Keys
use buzzhive.Cooldown.{
  Response, Reply, broken, answered, Environment, World, next_provider_key,
  mark_provider_key_exhausted, mark_provider_key_healthy,
}

abbrev pub should_retry : ℕ → Bool
should_retry status = status == 429 || leb 500 status

unfoldable pub should_disable_api_key : ℕ → Text → Text → Text → Bool
should_disable_api_key status code message body =
    if status == 401 || status == 403
    then true
    else if not (status == 400)
    then false
    else let all = to_upper (code ++ (10 ∷ message) ++ (10 ∷ body)) in
      contains all (text "API_KEY_INVALID") || contains all (text "API KEY NOT VALID")

pub data Note : Type 0 where
  all_keys_cooling : Text → Note
  provider_not_found : Text → Note
  key_error : Text → Text → Note
  key_status : Text → ℕ → Note
  key_disabled : Text → ℕ → Note

pub record Attempted : Type 0 where
  pub response : Option Response
  pub key : Option ApiKey
  pub target : RouteTarget
  pub attempts : ℕ
  pub chain : List Note
  pub succeeded : Bool

-- Of an answer of 400 or more 64 KB are read, and given back as its body.
unfoldable pub drained : Response → Response
drained resp = if leb 400 resp.status then record resp { body = clip 65536 resp.body } else resp

abbrev pub or_last : Option Response → Option Response → Option Response
or_last none last = last
or_last (some resp) last = some resp

abbrev pub failure : RouteTarget → Option Response → Option ApiKey → ℕ → List Note → Attempted
failure target last key attempts chain = record {
  response = elim last [ none ↦ some (record { status = 429; body = [] }) | some resp ↦ some resp ];
  key = key;
  target = target;
  attempts = attempts;
  chain = chain;
  succeeded = false;
}

unfoldable pub attempt_limit : ℕ → ℕ → ℕ → ℕ
attempt_limit configured requested key_count =
    let limit = if requested == 0 then configured else requested in
    let limit' = if not (key_count == 0) && ltb key_count limit then key_count else limit in
    if limit' == 0 then 1 else limit'

-- The result for a target whose provider is not registered.
abbrev pub no_provider : RouteTarget → Attempted
no_provider target = record {
  response = some (record { status = 502; body = text "provider not found" });
  key = none;
  target = target;
  attempts = 0;
  chain = provider_not_found target.provider_name ∷ [];
  succeeded = false;
}

module _ (e : Environment) where
  open e use {parse, clock, jitter, forward, disable_fails, has_provider}

  -- `disableAPIKey`: the store first, which refuses the identifier 0, and the rotation only if that went
  -- through.
  unfoldable pub disable_api_key : World e → ApiKey → Bool → World e
  disable_api_key w key fails =
      let id = if key.provider_key_id == 0 then key.id else key.provider_key_id in
      if id == 0 || fails
      then w
      else record w { keys = Keys.remove w.keys key; disabled = key ∷ w.disabled }

  -- `refreshKeyStateStats`: its snapshot drops the cooldowns that are over.
  unfoldable pub refresh : World e → ℕ → World e
  refresh w now = record w { keys = (Keys.snapshot_exhausted w.keys now).0 }

  unfoldable pub note_error : World e → Text → ApiKey → ℕ → Text → ℕ → World e
  note_error w model key status message now = record w {
    keys = Keys.mark_error w.keys model key status message now;
  }

  -- What one answer leads to: another attempt, with the answer that a failure would report if there is
  -- one, or the end of the loop.
  pub data Verdict : Type 0 where
    retry : World e → Option Response → Note → Verdict
    done : World e → Response → Verdict

  unfoldable pub disables : Response → Bool
  disables resp =
      let (code, message) = parse resp.body in
      leb 400 resp.status && should_disable_api_key resp.status code message resp.body

  -- The bookkeeping of an answer of 400 or more.
  unfoldable pub record_failure : World e → Text → RouteTarget → ApiKey → ℕ → Response → World e
  record_failure w model target key i resp =
      if resp.status == 429
      then mark_provider_key_exhausted e w model target key (clock i) (jitter i)
      else let w' = note_error w model key resp.status resp.body (clock i) in
        if disables resp then disable_api_key w' key (disable_fails key i) else w'

  unfoldable pub judge_response :
      World e → Text → Text → RouteTarget → ApiKey → ℕ → Response → Verdict
  judge_response w model public target key i resp =
      let failed = refresh (record_failure w model target key i resp) (clock i) in
      let healthy = refresh (mark_provider_key_healthy e w model target key) (clock i) in
      if should_retry resp.status
      then retry failed (some resp) (key_status key.name resp.status)
      else if disables resp
      then retry failed (some resp) (key_disabled key.name resp.status)
      else if leb 400 resp.status
      then done failed resp
      else done healthy resp

  unfoldable pub judge : World e → Text → Text → RouteTarget → ApiKey → ℕ → Reply → Verdict
  unfolding judge_response
  judge w model public target key i (broken message) =
      retry (refresh (note_error w model key 0 message (clock i)) (clock i)) none
        (key_error key.name message)
  judge w model public target key i (answered resp) =
      judge_response w model public target key i (drained resp)

  -- The loop of `doProviderAttemptLoop`: `left` more attempts, `attempts` made, `base` made by the
  -- request before.
  unfoldable pub attempt_loop :
      ℕ
      → ℕ
      → ℕ
      → Text
      → Text
      → RouteTarget
      → World e
      → Option Response
      → Option ApiKey
      → List Note
      → Option (World e × Attempted)
  attempt_loop zero attempts base model public target w last key chain =
      some (w, failure target last key attempts chain)
  attempt_loop (suc left) attempts base model public target w last key chain =
      let i = base + attempts in
      elim (next_provider_key e (suc (length w.keys.keys)) w.keys w.shared model target (clock i)) [
        | none ↦ none
        | some (k, picked) ↦
            let w' = record w { keys = k } in
            elim picked [
              | none ↦
                  some (w', failure target last key attempts (chain ++ all_keys_cooling model ∷ []))
              | some key' ↦ elim (judge w' model public target key' i (forward target key' i)) [
                | retry next answer note ↦
                    attempt_loop left (attempts + 1) base model public target next
                      (or_last answer last) (some key') (chain ++ note ∷ [])
                | done next resp ↦ some (
                  next,
                  record {
                    response = some resp;
                    key = some key';
                    target = target;
                    attempts = attempts + 1;
                    chain = chain;
                    succeeded = true;
                  },
                )
              ]
            ]
      ]

  unfoldable pub do_provider_attempt_loop :
      ℕ → ℕ → ℕ → Text → RouteTarget → World e → Option (World e × Attempted)
  do_provider_attempt_loop configured requested base public target w =
      let model = if cooldown_model target == [] then public else cooldown_model target in
      let limit = attempt_limit configured requested (Keys.available_for w.keys target) in
      let result = attempt_loop limit 0 base model public target w none none [] in
      if has_provider target then result else some (w, no_provider target)

  -- The loop of `doProviderTargetLoop`, with `combined` the last result.
  unfoldable pub target_loop :
      ℕ
      → ℕ
      → Text
      → List RouteTarget
      → World e
      → ℕ
      → List Note
      → Option Attempted
      → Option (World e × ℕ × List Note × Option Attempted)
  target_loop configured limit public [] w attempts chain combined =
      some (w, attempts, chain, combined)
  target_loop configured limit public (target ∷ targets) w attempts chain combined =
      if leb limit attempts
      then some (w, attempts, chain, combined)
      else elim (do_provider_attempt_loop configured (limit - attempts) attempts public target w) [
        | none ↦ none
        | some (w', result) ↦
            let attempts' = attempts + result.attempts in
            let chain' = chain ++ result.chain in
            let whole = record result { attempts = attempts'; chain = chain' } in
            elim (result.succeeded || leb limit attempts') [
              | true ↦ some (w', attempts', chain', some whole)
              | false ↦ target_loop configured limit public targets w' attempts' chain' (some whole)
            ]
      ]
