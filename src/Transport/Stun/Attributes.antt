-- ===== src/Transport/Stun/Attributes.antt =====
-- The attributes of a STUN message, written and read: src/transport/nat.rs.
use seam.Prelude.{
  ℕ, zero, suc, ◌+◌, ◌-◌, ◌*◌, ◌/◌, ◌≤◌, ◌<◌, List, [], ◌∷◌, ◌++◌, some, inl, inr, Bool-cases,
  not-ltb, true, false, ◌≡◌, refl, sym, ap, ◌∙◌, arith, ltb, length, get_or, replicate,
  length-append, length-replicate, take-append, take,
}
use mathlib.Core.List.{append_assoc, append-nil}
use seam.Prelude.Bytes.{slice}
use seam.Prelude.Splice.{slice-skip}
use seam.Transport.Stun.{Found, to_be16, from_be16, note_attribute, parse_attributes}

pub record Attribute : Type 0 where
  pub kind : ℕ
  pub value : List ℕ

-- "Attributes are padded to 4-byte boundaries."
abbrev pub written : Attribute → List ℕ
written a =
    to_be16 a.kind
    ++ (to_be16 (length a.value)
        ++ (a.value ++ replicate ((length a.value + 3) / 4 * 4 - length a.value) 0))

abbrev pub all_written : List Attribute → List ℕ
all_written [] = []
all_written (a ∷ attributes) = written a ++ all_written attributes

-- Each attribute in turn, the later one of a type in place of the earlier one.
abbrev pub noted : List Attribute → Found → Found
noted [] found = found
noted (a ∷ attributes) found = noted attributes (note_attribute a.kind a.value found)

length-written : (a : Attribute) → length (written a) ≡ 4 + (length a.value + 3) / 4 * 4
length-written a = omega (
  arith,
  length-append a.value (replicate ((length a.value + 3) / 4 * 4 - length a.value) 0),
  length-replicate {A = ℕ} ((length a.value + 3) / 4 * 4 - length a.value) 0,
)

get_or-skip :
    (pre rest : List ℕ) (n i j : ℕ)
    → length pre ≡ n
    → j ≡ n + i
    → get_or (pre ++ rest) j 0 ≡ get_or rest i 0
get_or-skip [] rest n i j h e = ap (λ u. get_or rest u 0) (omega (arith, h))
get_or-skip (x ∷ pre) rest n i zero h e = absurd (omega (arith, h))
get_or-skip (x ∷ pre) rest n i (suc j) h e =
    get_or-skip pre rest (length pre) i j refl (omega (arith, h))

-- One round, at an attribute that lies within the message.
round :
    (fuel : ℕ) (bytes : List ℕ) (end_ pos kind len : ℕ) (value : List ℕ) (found : Found)
    → from_be16 bytes pos ≡ kind
    → from_be16 bytes (pos + 2) ≡ len
    → slice bytes (pos + 4) (pos + 4 + len) ≡ value
    → pos + 4 ≤ end_
    → pos + 4 + len ≤ length bytes
    → parse_attributes (suc fuel) bytes end_ pos found
      ≡ parse_attributes fuel bytes end_
          (pos + 4 + (len + 3) / 4 * 4)
          (note_attribute kind value found)
unfolding parse_attributes
round fuel bytes end_ pos kind len value found k l v room within =
    let open_ : ltb end_ (pos + 4) ≡ false = ground arith in
    let fits : ltb (length bytes) (pos + 4 + from_be16 bytes (pos + 2)) ≡ false =
      ground (arith, l) in
    rw (open_, parse_attributes)
      (rw fits (λ i.
        parse_attributes fuel bytes end_ (pos + 4 + (l i + 3) / 4 * 4)
          (note_attribute (k i) (slice bytes (pos + 4) (pos + 4 + l i)) found)))
    ∙ ap
        (λ u.
          parse_attributes fuel bytes end_ (pos + 4 + (len + 3) / 4 * 4)
            (note_attribute kind u found))
        v

pub parse_attributes-written :
    (attributes : List Attribute) (fuel : ℕ) (pre : List ℕ) (pos end_ : ℕ) (found : Found)
    → length pre ≡ pos
    → length attributes < fuel
    → end_ ≡ length (pre ++ all_written attributes)
    → parse_attributes fuel (pre ++ all_written attributes) end_ pos found
      ≡ some (noted attributes found)
unfolding parse_attributes
parse_attributes-written attributes zero pre pos end_ found h enough e = absurd (omega arith)
parse_attributes-written [] (suc fuel) pre pos end_ found h enough e =
    let full : ltb end_ (pos + 4) ≡ true = ground (arith, h, e, ap length (append-nil pre)) in
    rw (full, parse_attributes) refl
parse_attributes-written (a ∷ attributes) (suc fuel) pre pos end_ found h enough e =
    let value = a.value in
    let len = length value in
    let pad = replicate {A = ℕ} ((len + 3) / 4 * 4 - len) 0 in
    let after = all_written attributes in
    let bytes = pre ++ (written a ++ after) in
    let at = get_or-skip pre (written a ++ after) pos in
    let total : length bytes ≡ pos + (4 + (len + 3) / 4 * 4 + length after) = omega (
      arith,
      length-append pre (written a ++ after),
      length-append (written a) after,
      length-written a,
      h,
    ) in
    let regroup = append_assoc pre (written a) after in
    let kept : slice bytes (pos + 4) (pos + 4 + len) ≡ value =
      ap (slice bytes (pos + 4)) (omega arith)
      ∙ slice-skip pre (written a ++ after) pos 4 (4 + len) h
      ∙ ap (λ n. take n ((value ++ pad) ++ after)) {y = len} (omega arith)
      ∙ ap (take len) (append_assoc value pad after)
      ∙ take-append value (pad ++ after) in
    round fuel bytes end_ pos a.kind len value found
      ((λ i. at 0 pos h (omega arith) i * 256 + at 1 (pos + 1) h refl i) ∙ omega arith)
      ((λ i. at 2 (pos + 2) h refl i * 256 + at 3 (pos + 2 + 1) h (omega arith) i) ∙ omega arith)
      kept (omega (arith, e, total)) (omega (arith, total))
    ∙ (λ i.
        parse_attributes fuel (sym regroup i) end_ (pos + 4 + (len + 3) / 4 * 4)
          (note_attribute a.kind value found))
    ∙ parse_attributes-written attributes fuel (pre ++ written a) (pos + 4 + (len + 3) / 4 * 4) end_
        (note_attribute a.kind value found)
        (omega (arith, length-append pre (written a), length-written a, h)) (omega arith)
        (e ∙ ap length (sym regroup))

pub length-all_written :
    (attributes : List Attribute) → length attributes ≤ length (all_written attributes)
length-all_written [] = omega arith
length-all_written (a ∷ attributes) = omega (
  arith,
  length-append (written a) (all_written attributes),
  length-written a,
  length-all_written attributes,
)

pub noted-append :
    (before after : List Attribute) (found : Found)
    → noted (before ++ after) found ≡ noted after (noted before found)
noted-append [] after found = refl
noted-append (a ∷ before) after found =
    noted-append before after (note_attribute a.kind a.value found)

-- Whatever the message, the loop ends on fuel that covers what is left of it: a round passes four
-- bytes at least.
pub parse_attributes-returns :
    (fuel : ℕ) (bytes : List ℕ) (end_ pos : ℕ) (found : Found)
    → end_ < pos + fuel
    → 0 < fuel
    → (found' : Found) × (parse_attributes fuel bytes end_ pos found ≡ some found')
unfolding parse_attributes
parse_attributes-returns zero bytes end_ pos found h positive = absurd (omega arith)
parse_attributes-returns (suc fuel) bytes end_ pos found h positive =
    elim (Bool-cases (ltb end_ (pos + 4))) [
      | inl over ↦ (found, rw (over, parse_attributes) refl)
      | inr more ↦ elim (Bool-cases (ltb (length bytes) (pos + 4 + from_be16 bytes (pos + 2)))) [
        | inl cut ↦ (found, rw (more, parse_attributes) (rw cut refl))
        | inr whole ↦
            let len = from_be16 bytes (pos + 2) in
            let (found', returns) =
              parse_attributes-returns fuel bytes end_ (pos + 4 + (len + 3) / 4 * 4)
                (note_attribute (from_be16 bytes pos) (slice bytes (pos + 4) (pos + 4 + len)) found)
                (omega arith) (omega (arith, not-ltb end_ (pos + 4) more)) in
            (found', rw (more, parse_attributes) (rw whole returns))
      ]
    ]
