-- ===== src/Amf/Read/Loops.antt =====
-- src/amf/amf_object.c: data on which the loop of `amf_read` does not end.
use lib_open_rtmp.Base.{ℕ, zero, suc, ◌+◌, ◌<◌, ◌≡◌, refl, Bool, List, ◌∷◌, arith, length, lt→ltb}
use lib_open_rtmp.Amf.Marker
use lib_open_rtmp.Amf.Builder.{Amf}
use lib_open_rtmp.Amf.Read.{
  read_loop, read_round, read_member_name, read_item, amf_read, out_of_fuel, scan, push, stepped,
}
use lib_open_rtmp.Amf.Read.Rounds.{reading, next_type_lem}

avmplus_round :
    (malloc : ℕ → Bool) (amf : Amf) (rest : List ℕ) (o size : ℕ)
    → amf.depth ≡ 0
    → (o' : ℕ) × (read_round malloc (reading amf (Marker.avmplus ∷ rest) o size)
        ≡ stepped (reading amf (Marker.avmplus ∷ rest) o' size))
unfolding read_round read_member_name read_item scan push
avmplus_round malloc amf rest o size outside =
    (o + 0, rw (outside, next_type_lem Marker.avmplus rest (omega arith)) refl)

avmplus_loop :
    (malloc : ℕ → Bool) (fuel : ℕ) (amf : Amf) (rest : List ℕ) (o size : ℕ)
    → amf.depth ≡ 0
    → read_loop malloc fuel (reading amf (Marker.avmplus ∷ rest) o size) ≡ out_of_fuel
unfolding read_loop
avmplus_loop malloc zero amf rest o size outside = refl
avmplus_loop malloc (suc fuel) amf rest o size outside =
    let (o', round) = avmplus_round malloc amf rest o size outside in
    rw (lt→ltb (nonempty rest), round) (avmplus_loop malloc fuel amf rest o' size outside)
  where
    nonempty : (bs : List ℕ) → 0 < suc (length bs)
    nonempty bs = omega arith

-- On data that starts with the marker of AMF3 the loop never ends, outside of every object:
-- whatever the fuel is, it is used up.
pub amf_read-avmplus :
    (malloc : ℕ → Bool) (fuel junk : ℕ) (amf : Amf) (rest : List ℕ)
    → amf.depth ≡ 0
    → amf_read malloc fuel junk amf (Marker.avmplus ∷ rest) ≡ out_of_fuel
unfolding amf_read
amf_read-avmplus malloc fuel junk amf rest outside =
    avmplus_loop malloc fuel amf rest 0 junk outside
