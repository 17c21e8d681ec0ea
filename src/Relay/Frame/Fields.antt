-- ===== src/Relay/Frame/Fields.antt =====
-- Where the fields of an encoded frame stand, and what `DecodeFrame` reads there.
use turnfly.Prelude.{
  ℕ, ◌+◌, ◌≡◌, refl, ◌∙◌, ap, ◌++◌, [], arith, length, append_assoc, length-append,
}
use turnfly.Text.{Bytes, slice}
use turnfly.Text.Slices.{slice_field}

abbrev pub buffer : Bytes → Bytes → Bytes → Bytes → Bytes → Bytes → Bytes → Bytes
buffer m i f d t l p = m ++ (i ++ (f ++ (d ++ (t ++ (l ++ p)))))

pub record HasSizes (m i f d t l : Bytes) : Type 0 where
  pub magic_size : length m ≡ 4
  pub id_size : length i ≡ 16
  pub flow_size : length f ≡ 2
  pub direction_size : length d ≡ 1
  pub time_size : length t ≡ 8
  pub length_size : length l ≡ 2

-- A header of six fields and what follows it.
module _ (m i f d t l p : Bytes) (h : HasSizes m i f d t l) where
  pub magic_field : slice 0 4 (buffer m i f d t l p) ≡ m
  magic_field = slice_field [] m _ 0 4 refl (omega arith)

  pub id_field : slice 4 20 (buffer m i f d t l p) ≡ i
  id_field = slice_field m i _ 4 20 h.magic_size (omega arith)

  pub flow_field : slice 20 22 (buffer m i f d t l p) ≡ f
  flow_field =
      ap (slice 20 22) regroup
      ∙ slice_field (m ++ i) f _ 20 22 (omega (arith, length-append m i)) (omega arith)
    where
      regroup : buffer m i f d t l p ≡ (m ++ i) ++ (f ++ (d ++ (t ++ (l ++ p))))
      regroup = simp append_assoc

  pub direction_field : slice 22 23 (buffer m i f d t l p) ≡ d
  direction_field =
      ap (slice 22 23) regroup
      ∙ slice_field ((m ++ i) ++ f) d _ 22 23
          (omega (arith, length-append m i, length-append (m ++ i) f)) (omega arith)
    where
      regroup : buffer m i f d t l p ≡ ((m ++ i) ++ f) ++ (d ++ (t ++ (l ++ p)))
      regroup = simp append_assoc

  -- The fields behind the direction start after 23 bytes.
  abbrev before_time : Bytes
  before_time = ((m ++ i) ++ f) ++ d

  length-before_time : length before_time ≡ 23
  length-before_time =
      omega (arith, length-append m i, length-append (m ++ i) f, length-append ((m ++ i) ++ f) d)

  pub time_field : slice 23 31 (buffer m i f d t l p) ≡ t
  time_field =
      ap (slice 23 31) regroup ∙ slice_field before_time t _ 23 31 length-before_time (omega arith)
    where
      regroup : buffer m i f d t l p ≡ before_time ++ (t ++ (l ++ p))
      regroup = simp append_assoc

  pub length_field : slice 31 33 (buffer m i f d t l p) ≡ l
  length_field =
      ap (slice 31 33) regroup
      ∙ slice_field (before_time ++ t) l _ 31 33
          (omega (arith, length-before_time, length-append before_time t)) (omega arith)
    where
      regroup : buffer m i f d t l p ≡ (before_time ++ t) ++ (l ++ p)
      regroup = simp append_assoc

  pub length-buffer : length (buffer m i f d t l p) ≡ 33 + length p
  length-buffer =
      ap length regroup
      ∙ omega (
        arith,
        length-before_time,
        length-append before_time t,
        length-append (before_time ++ t) l,
        length-append ((before_time ++ t) ++ l) p,
      )
    where
      regroup : buffer m i f d t l p ≡ ((before_time ++ t) ++ l) ++ p
      regroup = simp append_assoc

  pub payload_field :
      (payload rest : Bytes) (hi : ℕ)
      → p ≡ payload ++ rest
      → 33 + length payload ≡ hi
      → slice 33 hi (buffer m i f d t l p) ≡ payload
  payload_field payload rest hi e k =
      ap (slice 33 hi) regroup
      ∙ slice_field ((before_time ++ t) ++ l) payload rest 33 hi
          (omega (
            arith,
            length-before_time,
            length-append before_time t,
            length-append (before_time ++ t) l,
          ))
          k
    where
      regroup : buffer m i f d t l p ≡ ((before_time ++ t) ++ l) ++ (payload ++ rest)
      regroup = rw e (simp append_assoc)
