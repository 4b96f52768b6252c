-- ===== src/Tests/Signs.antt =====
-- The signature of one tool call.
use buzzhive.Base.{
  ◌+◌, ◌≤◌, ◌≡◌, ◌≢◌, refl, true, [], ◌∷◌, List, ◌++◌, Option, some, none, Text, text, arith,
  length,
}
use buzzhive.Base.Bytes.{trim_space, strip, leading_space, trailing_space, ascii_space, wide_space}
use buzzhive.Types.{minute}
use buzzhive.Signatures.{
  Entry, ToolCall, tool_signature_ttl, new_entry, max_tool_signature_entries, scope, id_key,
  remember_tool_signatures, tool_signature,
}
use buzzhive.Signatures.Bounds.{remember_bounded}
use buzzhive.Signatures.Recall.{LookUp, look_up_all, all_before, remembered_signature}
use buzzhive.Tests.Samples.{token, model, now, upstream}

abbrev parsed : Text → Option Text
parsed t = some t

abbrev call : ToolCall
call = record { id = text " c1"; name = text "f"; arguments = text ""; signature = text "sig" }

abbrev one_entry : List Entry
one_entry = new_entry (text "k") (text "sig") now ∷ []

remember_bounded_example :
    length (remember_tool_signatures parsed upstream.format token model now (call ∷ []) one_entry)
    ≤ max_tool_signature_entries
remember_bounded_example =
    remember_bounded parsed upstream.format token model now (call ∷ []) one_entry (omega arith)

-- Another signature is found in the shared cache, and one is missed.
abbrev between : List LookUp
between = (text "j", now + minute, some (text "other")) ∷ (text "k", now + minute, none) ∷ []

between_before : all_before (now + tool_signature_ttl) between ≡ true
unfolding all_before
between_before = refl

call_named : trim_space (text " c1") ≢ []
unfolding trim_space strip leading_space trailing_space ascii_space wide_space
call_named h = cc

call_signed : text "sig" ≢ []
call_signed h = cc

remembered_signature_example :
    (tool_signature
      (scope parsed upstream.format token model
        ++ id_key parsed upstream.format (trim_space (text " c1")))
      (now + (minute + minute))
      none
      (look_up_all between
        (remember_tool_signatures parsed upstream.format token model now (call ∷ []) one_entry))).1
    ≡ text "sig"
remembered_signature_example =
    remembered_signature parsed upstream.format token model now (now + (minute + minute)) call none
      one_entry between call_named call_signed between_before (omega arith) (omega arith)
