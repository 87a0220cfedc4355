-- ===== src/Text/Fields.antt =====
-- `strings.Fields` on two parts.
use my_operator.Base.{
  ℕ, true, List, [], ◌∷◌, ◌++◌, append-nil, append_assoc, ◌≡◌, ◌≢◌, refl, ◌∙◌, Text,
}
use my_operator.Text.{is_space, flush, fields_onto, fields}
use my_operator.Text.Trim.{NoSpace}

fields_onto-append :
    (w cur : Text) (c : ℕ) (s : Text)
    → NoSpace w
    → is_space c ≡ true
    → fields_onto cur (w ++ c ∷ s) ≡ flush (cur ++ w) (fields_onto [] s)
unfolding fields_onto
fields_onto-append [] cur c s h hc = rw (fields_onto, hc, append-nil)
fields_onto-append (d ∷ w) cur c s h hc =
    rw (h.0, fields_onto) (fields_onto-append w (cur ++ d ∷ []) c s h.1 hc ∙ rw append_assoc)

fields_onto-end : (w cur : Text) → NoSpace w → fields_onto cur w ≡ flush (cur ++ w) []
unfolding fields_onto
fields_onto-end [] cur h = rw append-nil
fields_onto-end (d ∷ w) cur h =
    rw (h.0, fields_onto) (fields_onto-end w (cur ++ d ∷ []) h.1 ∙ rw append_assoc)

flush-ne-nil : (w : Text) (parts : List Text) → w ≢ [] → flush w parts ≡ w ∷ parts
unfolding flush
flush-ne-nil [] parts h = absurd (h refl)
flush-ne-nil (c ∷ w) parts h = refl

-- The first field ends at the first white space.
pub fields-first_at :
    (w : Text) (c : ℕ) (s : Text)
    → NoSpace w
    → w ≢ []
    → is_space c ≡ true
    → fields (w ++ c ∷ s) ≡ w ∷ fields s
unfolding fields
fields-first_at w c s h ne hc = fields_onto-append w [] c s h hc ∙ flush-ne-nil w _ ne

pub fields-first : (w s : Text) → NoSpace w → w ≢ [] → fields (w ++ b' ' ∷ s) ≡ w ∷ fields s
fields-first w s h ne = fields-first_at w b' ' s h ne (unfold is_space in refl)

pub fields-last : (w : Text) → NoSpace w → w ≢ [] → fields w ≡ w ∷ []
unfolding fields
fields-last w h ne = fields_onto-end w [] h ∙ flush-ne-nil w [] ne
