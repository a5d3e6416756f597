-- ===== src/ParseInts/Split.antt =====
-- Splitting at a separator.
use srf.Base.{
  ℕ, ◌≡◌, ◌≢◌, refl, ap, ◌∙◌, false, [], ◌∷◌, ◌++◌, Text, All, arith, ==_iff, ◌==◌, Bool-cases, inl,
  inr,
}
use mathlib.Core.List.{append_assoc, append-nil}
use srf.ParseInts.{split_from, split_string_to_array}

-- No byte of the text is the separator.
abbrev pub Free : ℕ → Text → Type 0
Free sep = All λ c. c ≢ sep

Free-snoc : (sep : ℕ) (s : Text) (c : ℕ) → Free sep s → c ≢ sep → Free sep (s ++ (c ∷ []))
Free-snoc sep [] c h k = (k, tt)
Free-snoc sep (x ∷ s) c h k = (h.0, Free-snoc sep s c h.1 k)

ne_false : (c sep : ℕ) → c ≢ sep → (c == sep) ≡ false
ne_false c sep h = ground arith

-- A piece that is free of the separator, up to the separator.
pub split_from-piece :
    (sep : ℕ) (temp piece rest : Text)
    → Free sep piece
    → split_from sep temp (piece ++ (sep ∷ rest)) ≡ (temp ++ piece) ∷ split_from sep [] rest
unfolding split_from
split_from-piece sep temp [] rest h = rw ((==_iff sep sep).1 refl, append-nil temp)
split_from-piece sep temp (c ∷ piece) rest h = rw (ne_false c sep h.0) (
    split_from-piece sep (temp ++ (c ∷ [])) piece rest h.1
    ∙ ap (λ t. t ∷ split_from sep [] rest) (append_assoc temp (c ∷ []) piece))

-- A piece that is free of the separator, up to the end.
pub split_from-last :
    (sep : ℕ) (temp piece : Text)
    → Free sep piece
    → temp ++ piece ≢ []
    → split_from sep temp piece ≡ (temp ++ piece) ∷ []
unfolding split_from
split_from-last sep [] [] h ne = absurd (ne refl)
split_from-last sep (t ∷ temp) [] h ne = rw append-nil
split_from-last sep temp (c ∷ piece) h ne = rw (ne_false c sep h.0) (
    split_from-last sep (temp ++ (c ∷ [])) piece h.1 (rw (append_assoc temp (c ∷ []) piece) ne)
    ∙ ap (λ t. t ∷ []) (append_assoc temp (c ∷ []) piece))

split_from-Free : (sep : ℕ) (temp s : Text) → Free sep temp → All (Free sep) (split_from sep temp s)
unfolding split_from
split_from-Free sep [] [] h = tt
split_from-Free sep (t ∷ temp) [] h = (h, tt)
split_from-Free sep temp (c ∷ s) h = elim (Bool-cases (c == sep)) [
  | inl same ↦ rw same (h, split_from-Free sep [] s tt)
  | inr other ↦ rw other (
      split_from-Free sep (temp ++ (c ∷ [])) s
        (Free-snoc sep temp c h (λ e. cc ((==_iff c sep).1 e))))
]

-- No token holds the separator that the text was split at: the texts that `convert_string2_int`
-- gets from `parse_ints` hold no comma and no dash.
pub split-Free : (sep : ℕ) (s : Text) → All (Free sep) (split_string_to_array s sep)
unfolding split_string_to_array
split-Free sep s = split_from-Free sep [] s tt
