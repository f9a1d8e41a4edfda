-- ===== src/Bridge/Dedup.antt =====
-- Fingerprints of overlapping emissions (src/maivn/events/_bridge/dedup.py). `str.strip` and
-- `str.lower` of Python work on all of Unicode and are parameters here.
use maivn.Prelude.{String, Bool, Option, none, some, ◌==◌, if◌then◌else◌}

pub record TextOps : Type 0 where
  pub strip : String → String
  pub lower : String → String

module _ (ops : TextOps) where
  open ops use {strip, lower}

  unfoldable pub normalize_dedup_part : Option String → String
  normalize_dedup_part none = ""
  normalize_dedup_part (some value) = lower (strip value)

  -- `a or b` on texts
  abbrev or_text : String → String → String
  or_text a b = if a == "" then b else a

  unfoldable pub build_interrupt_fingerprint : String → String → Option String → String × String
  unfolding normalize_dedup_part
  build_interrupt_fingerprint prompt data_key arg_name = (
    normalize_dedup_part (some prompt),
    or_text (normalize_dedup_part arg_name) (normalize_dedup_part (some data_key)),
  )

  assistant_part : Option String → String
  assistant_part none = ""
  assistant_part (some assistant_id) =
      if strip assistant_id == "" then "" else lower (strip assistant_id)

  -- `none` for a payload whose message is missing, no text, or blank.
  unfoldable pub build_status_fingerprint : Option String → Option String → Option (String × String)
  unfolding assistant_part
  build_status_fingerprint none assistant_id = none
  build_status_fingerprint (some message) assistant_id =
      if strip message == "" then none else some (assistant_part assistant_id, strip message)

-- Fingerprints are pairs of texts.
abbrev pub same_fingerprint : String × String → String × String → Bool
same_fingerprint (a, b) (c, d) = if a == c then b == d else Bool.false
