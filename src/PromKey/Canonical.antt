-- ===== src/PromKey/Canonical.antt =====
-- pkg/slo/common/promkey/promkey.go: `Canonicalize` on the keys that `Format` writes.
use mathlib.Core.List.{cons-ne-nil}
use mathlib.Core.List.Perm
use my_operator.Base.{false, [], ◌∷◌, ◌++◌, ◌≡◌, ◌≢◌, refl, sym, ◌∙◌, Text, All, ok}
use my_operator.GoMap.{keys, IsMap}
use my_operator.Text.Sort.{sort_strings, sort-sort, sort_strings-permᴰ, All-sort_strings}
use my_operator.PromKey.{Labels, write_labels, format, canonicalize}
use my_operator.PromKey.Loop.{IsLabelName, IsMetricName, stored, parse_labels-write_labels}
use my_operator.PromKey.Order.{write_labels-SameMap}
use my_operator.PromKey.Stored.{stored-SameMap, keys-stored_sorted}
use my_operator.PromKey.Token.{parse-name, parse-braces}

format-nonempty :
    (name : Text) (m : Labels)
    → keys m ≢ []
    → format name m ≡ name ++ (b'{' ∷ (write_labels m false (sort_strings (keys m)) ++ (b'}' ∷ [])))
unfolding format
format-nonempty name [] h = absurd (h (unfold keys in refl))
format-nonempty name (l ∷ ls) h = refl

-- The map that `Parse` fills is formatted as the one that was written.
format-stored :
    (name : Text) (labels : Labels)
    → IsMap labels
    → sort_strings (keys labels) ≢ []
    → format name (stored labels [] (sort_strings (keys labels)))
      ≡ name ++ (b'{' ∷ (write_labels labels false (sort_strings (keys labels)) ++ (b'}' ∷ [])))
format-stored name labels h ne =
    let ks = sort_strings (keys labels) in
    let same = keys-stored_sorted labels h in
    format-nonempty name (stored labels [] ks) (λ e. ne (sym same ∙ e))
    ∙ rw (
      same,
      sort-sort (keys labels),
      write_labels-SameMap _ labels false ks (stored-SameMap labels),
    )

sort_keys-ne-nil : (k v : Text) (m : Labels) → sort_strings (keys ((k, v) ∷ m)) ≢ []
unfolding keys
sort_keys-ne-nil k v m e =
    cons-ne-nil k (keys m) (sym (Perm.nil-eq ∣ rw e at (sort_strings-permᴰ (k ∷ keys m)) ∣₁))

keys-ne-nil : (k v : Text) (m : Labels) → keys ((k, v) ∷ m) ≢ []
unfolding keys
keys-ne-nil k v m = cons-ne-nil k (keys m)

-- A key that `Format` wrote is canonical: `Canonicalize` gives it back as it is. For a nonempty
-- metric name with no space and no '{', and distinct label names with no space, '=' or ','.
pub canonicalize-format :
    (name : Text) (labels : Labels)
    → IsMetricName name
    → name ≢ []
    → All IsLabelName (keys labels)
    → IsMap labels
    → canonicalize (format name labels) ≡ ok (format name labels)
unfolding canonicalize
canonicalize-format name [] h ne hs u = unfold format in rw (parse-name name h ne)
canonicalize-format name ((k, v) ∷ m) h ne hs u =
    let labels : Labels = (k, v) ∷ m in
    let ks = sort_strings (keys labels) in
    rw (
      format-nonempty name labels (keys-ne-nil k v m),
      parse-braces name (write_labels labels false ks) h,
      parse_labels-write_labels ks labels (All-sort_strings IsLabelName (keys labels) hs),
      format-stored name labels u (sort_keys-ne-nil k v m),
    )
