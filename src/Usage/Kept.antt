-- ===== src/Usage/Kept.antt =====
-- What is appended by internal/usage/store.go is read again.
use Prim.Native.String.{◌++◌}
use text.Mathlib.TextLemmas.{append_assoc, nil-append, append-nil}
use loomcli.Common.{
  ◌≡◌, refl, sym, ap, ◌∙◌, true, false, none, some, List, [], ◌∷◌, String, str_eq, split,
  split-append, split-Lacks, Bool-cases, inl, inr, ◌⊎◌, Lacks, if◌then◌else◌,
}
use loomcli.Usage.{
  SessionUsage, Filter, LineFormat, matches_filter, append, kept_if, with_record, read_lines, read,
}

-- What is in the file: a record, or a line that is none.
pub data Entry : Type 0 where
  session : SessionUsage → Entry
  corrupt : String → Entry

joined : (file s r : String) → (file ++ (s ++ "\n")) ++ r ≡ file ++ (s ++ "\n" ++ r)
joined file s r = append_assoc file (s ++ "\n") r ∙ ap (λ t. file ++ t) (append_assoc s "\n" r)

module _ (l : LineFormat) where
  abbrev line : Entry → String
  line (session r) = l.write r
  line (corrupt s) = s

  abbrev pub appended : String → List Entry → String
  appended file [] = file
  appended file (session r ∷ es) = appended (append l file r) es
  appended file (corrupt s ∷ es) = appended (file ++ (s ++ "\n")) es

  -- JSON writes a record on a line that is not empty, and reads it from there.
  abbrev IsWritten : SessionUsage → Type 0
  IsWritten r =
      Lacks "\n" (l.write r)
      × (l.read (l.write r) ≡ some r)
      × (l.is_too_long (l.write r) ≡ false)
      × (str_eq (l.write r) "" ≡ false)

  -- A corrupt line has no line break, and no line is too long.
  abbrev IsEntry : Entry → Type 0
  IsEntry (session r) = IsWritten r
  IsEntry (corrupt s) = Lacks "\n" s × (l.read s ≡ none) × (l.is_too_long s ≡ false)

  abbrev pub AllEntries : List Entry → Type 0
  AllEntries [] = l.is_too_long "" ≡ false
  AllEntries (e ∷ es) = IsEntry e × AllEntries es

  abbrev content : List Entry → String
  content [] = ""
  content (e ∷ es) = line e ++ "\n" ++ content es

  appended-content : (file : String) (es : List Entry) → appended file es ≡ file ++ content es
  unfolding append
  appended-content file [] = sym (append-nil file)
  appended-content file (session r ∷ es) =
      appended-content (append l file r) es ∙ joined file (l.write r) (content es)
  appended-content file (corrupt s ∷ es) =
      appended-content (file ++ (s ++ "\n")) es ∙ joined file s (content es)

-- The records that pass the filter, in order.
abbrev pub selected : Filter → List Entry → List SessionUsage
selected f [] = []
selected f (session r ∷ es) = kept_if (matches_filter r f) r (selected f es)
selected f (corrupt s ∷ es) = selected f es

read_lines-content :
    (l : LineFormat) (f : Filter) (es : List Entry)
    → AllEntries l es
    → read_lines l f (split "\n" (content l es)) ≡ (selected f es, false)
unfolding read_lines
read_lines-content l f [] h = rw (split-Lacks "\n" "" tt) (rw h refl)
read_lines-content l f (session r ∷ es) h =
    rw (split-append "\n" (l.write r) (content l es) h.0.0)
      (rw (h.0.2, h.0.3) (rw (h.0.1, read_lines-content l f es h.1) refl))
read_lines-content l f (corrupt s ∷ es) h =
    rw (split-append "\n" s (content l es) h.0.0)
      (rw h.0.2 (rest (Bool-cases (str_eq s "")) (read_lines-content l f es h.1)))
  where
    rest :
        (str_eq s "" ≡ true) ⊎ (str_eq s "" ≡ false)
        → read_lines l f (split "\n" (content l es)) ≡ (selected f es, false)
        → (if str_eq s "" then read_lines l f (split "\n" (content l es)) else (
          with_record f (l.read s) (read_lines l f (split "\n" (content l es))).0,
          (read_lines l f (split "\n" (content l es))).1,
        ))
          ≡ (selected f es, false)
    rest (inl e) ih = rw e ih
    rest (inr e) ih = rw e (rw (h.0.1, ih) refl)

-- Read gives the records that were appended and pass the filter, in their order, without an error, whatever
-- corrupt lines stand between them, if JSON reads what it wrote and no line is too long for the scanner.
pub read-append :
    (l : LineFormat) (f : Filter) (es : List Entry)
    → AllEntries l es
    → read l f (some (appended l "" es)) ≡ (selected f es, false)
unfolding read
read-append l f es h = rw (appended-content l "" es, nil-append) (read_lines-content l f es h)
