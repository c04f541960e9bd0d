-- ===== src/Amf/Write/Items.antt =====
-- src/amf/amf_object.c: `amf_write` writes the AMF0 format of the items.
use lib_open_rtmp.Base.{
  ℕ, suc, ◌+◌, ◌-◌, ◌^◌, ◌≤◌, ◌<◌, ◌≡◌, refl, sym, ap, ap₂, ◌∙◌, some, List, [], ◌∷◌, ◌++◌, arith,
  length, drop, length-append, length-drop, lt→not_leb, drop-append_front,
}
use lib_open_rtmp.Amf.Value.{AmfValue}
use lib_open_rtmp.Amf.Builder.{Amf}
use lib_open_rtmp.Amf.Write.{write_items, amf_write}
use lib_open_rtmp.Amf.Write.Layout.{rejoined, amf_write_value-Writes}
use lib_open_rtmp.Amf.Format.{format, Plain}

unfoldable pub format_items : List AmfValue → List ℕ
unfolding format
format_items [] = []
format_items (v ∷ vs) = format v ++ format_items vs

unfoldable pub PlainItems : List AmfValue → Type 0
unfolding Plain
PlainItems [] = Unit
PlainItems (v ∷ vs) = Plain v × PlainItems vs

write_items_lem :
    (vs : List AmfValue) (mem : List ℕ) (i : ℕ)
    → PlainItems vs
    → length (format_items vs) ≤ length mem
    → length (format_items vs) < 2 ^ 31
    → write_items vs (some mem) i ≡ (
      some (format_items vs ++ drop (length (format_items vs)) mem),
      length (format_items vs),
      i + length vs,
    )
unfolding write_items format_items PlainItems
write_items_lem [] mem i h fits small = ap (λ (k : ℕ). (some mem, 0, k)) (omega arith)
write_items_lem (v ∷ vs) mem i h fits small =
    rw
      (
        amf_write_value-Writes v h.0 mem (omega (arith, sizes)) (omega (arith, sizes)),
        lt→not_leb (v_small sizes),
        drop-append_front (length (format v)) (format v) (drop (length (format v)) mem) refl,
        write_items_lem vs (drop (length (format v)) mem) (suc i) h.1
            (rest_fits sizes (length-drop (length (format v)) mem)) (omega (arith, sizes)),
      )
      (ap (λ m. (some m, length (format v) + length (format_items vs), suc i + length vs))
          (rejoined (format v) (format_items vs) mem)
        ∙ ap₂ (λ (k j : ℕ). (some whole, k, j)) (sym sizes) (omega arith))
  where
    whole : List ℕ
    whole = (format v ++ format_items vs) ++ drop (length (format v ++ format_items vs)) mem

    sizes : length (format v ++ format_items vs) ≡ length (format v) + length (format_items vs)
    sizes = length-append (format v) (format_items vs)

    v_small :
        length (format v ++ format_items vs) ≡ length (format v) + length (format_items vs)
        → length (format v) < 2 ^ 31
    v_small e = omega arith

    rest_fits :
        length (format v ++ format_items vs) ≡ length (format v) + length (format_items vs)
        → length (drop (length (format v)) mem) ≡ length mem - length (format v)
        → length (format_items vs) ≤ length (drop (length (format v)) mem)
    rest_fits e e' = omega arith

-- Values that come back as they were are written in the layout of `format`, which is AMF0's but for a
-- date, at the front of a buffer that holds it, all of them, and the size returned is the layout's.
-- The data is shorter than 2 ^ 31 bytes.
pub amf_write_lem :
    (amf : Amf) (mem : List ℕ)
    → PlainItems amf.items
    → length (format_items amf.items) ≤ length mem
    → length (format_items amf.items) < 2 ^ 31
    → amf_write amf (some mem) ≡ (
      length (format_items amf.items),
      length amf.items,
      some (format_items amf.items ++ drop (length (format_items amf.items)) mem),
    )
unfolding amf_write
amf_write_lem amf mem h fits small = rw (write_items_lem amf.items mem 0 h fits small) (
    ap₂
      (λ (k j : ℕ).
        (k, j, some (format_items amf.items ++ drop (length (format_items amf.items)) mem)))
      (omega arith) (omega arith))
