-- ===== src/Rtcp/CompoundBuilder/WellFormed/Items.antt =====
-- The calls that add SDES sources and items keep the builder well-formed.
use jrtplib.Prelude.{
  ℕ, suc, ◌+◌, ◌%◌, ◌<◌, ◌≡◌, inl, inr, refl, ap, Bool, true, not, List, [], ◌∷◌, ◌++◌,
  Option-cases, some, All, All-append, length, length-append, ltb, ◌==◌, arith,
}
use jrtplib.Rtcp.Sdes.Iterate.{
  ItemType, none_item, cname, name, email, phone, loc, tool, note, priv, unknown_item,
}
use jrtplib.Rtcp.CompoundBuilder.{
  CompoundBuilder, SdesSource, add_item, add_sdes_item, sdes_bytes_with_extra_source,
  sdes_bytes_with_extra_item,
}
use jrtplib.Rtcp.CompoundBuilder.Descriptions.{
  other_than_sdes, normal_item_id, add_item_bytes, add_sdes_source, add_sdes_normal_item,
  add_sdes_private_item,
}
use jrtplib.Rtcp.CompoundBuilder.End.{concat}
use jrtplib.Rtcp.CompoundBuilder.SdesSound.{IsSource, IsItem}
use jrtplib.Rtcp.CompoundBuilder.WellFormed.{WellFormed}
use jrtplib.Rtcp.CompoundBuilder.WellFormed.Kept.{if_keeps, with_sources, is_on}

pub length-concat_append :
    (ds : List (List ℕ)) (d : List ℕ)
    → length (concat (ds ++ (d ∷ []))) ≡ length (concat ds) + length d
length-concat_append [] d = omega (arith, length-append d [])
length-concat_append (e ∷ ds) d = omega (
  arith,
  length-concat_append ds d,
  length-append e (concat ds),
  length-append e (concat (ds ++ (d ∷ []))),
)

add_item-IsSource :
    (s : SdesSource) (buf : List ℕ) → IsItem buf → IsSource s → IsSource (add_item s buf)
add_item-IsSource s buf i (t, a) = (
  omega (arith, t, length-concat_append s.items buf),
  All-append IsItem s.items (buf ∷ []) a (i, tt),
)

add_sdes_item-IsSource :
    (ss : List SdesSource) (buf : List ℕ)
    → IsItem buf
    → All IsSource ss
    → All IsSource (add_sdes_item ss buf)
unfolding add_sdes_item
add_sdes_item-IsSource [] buf i a = tt
add_sdes_item-IsSource (s ∷ []) buf i (h, a) = (add_item-IsSource s buf i h, tt)
add_sdes_item-IsSource (s ∷ t ∷ ts) buf i (h, a) = (h, add_sdes_item-IsSource (t ∷ ts) buf i a)

pub add_sdes_source-WellFormed :
    (b : CompoundBuilder) (given : Bool) (ssrc : ℕ)
    → WellFormed b
    → WellFormed (add_sdes_source b given ssrc).0
unfolding add_sdes_source
add_sdes_source-WellFormed b given ssrc w =
    if_keeps WellFormed (not b.arebuilding) _ _ (λ off. w)
      (λ on.
        if_keeps WellFormed
          (ltb b.maximumpacketsize (other_than_sdes b + sdes_bytes_with_extra_source b.sdessources))
          _ _ (λ full. w)
          (λ fits.
            if_keeps WellFormed (not given) _ _ (λ lack. w)
              (λ have. with_sources b _ w (is_on b on) (
                All-append IsSource b.sdessources
                  (record { ssrc = ssrc; items = []; totalitemsize = 0 } ∷ []) w.sources
                  ((refl, tt), tt)))))

add_item_bytes-WellFormed :
    (b : CompoundBuilder) (given : Bool) (id : ℕ) (value : List ℕ)
    → WellFormed b
    → b.arebuilding ≡ true
    → length value < 256
    → WellFormed (add_item_bytes b given (suc id) value).0
add_item_bytes-WellFormed b given id value w on short =
    if_keeps WellFormed
      (ltb b.maximumpacketsize
        (sdes_bytes_with_extra_item b.sdessources (length value) + other_than_sdes b))
      _ _ (λ full. w)
      (λ fits.
        if_keeps WellFormed (not given) _ _ (λ lack. w)
          (λ have. with_sources b _ w on (
            add_sdes_item-IsSource b.sdessources _
              (id, value, ap (λ n. suc id ∷ n ∷ value) (omega arith)) w.sources)))

-- An id of a normal item is not 0.
normal_item_id-suc : (t : ItemType) (k : ℕ) → normal_item_id t ≡ some k → (id : ℕ) × (k ≡ suc id)
normal_item_id-suc none_item k e = cc
normal_item_id-suc cname k e = (0, cc)
normal_item_id-suc name k e = (1, cc)
normal_item_id-suc email k e = (2, cc)
normal_item_id-suc phone k e = (3, cc)
normal_item_id-suc loc k e = (4, cc)
normal_item_id-suc tool k e = (5, cc)
normal_item_id-suc note k e = (6, cc)
normal_item_id-suc priv k e = cc
normal_item_id-suc unknown_item k e = cc

pub add_sdes_normal_item-WellFormed :
    (b : CompoundBuilder) (given : Bool) (t : ItemType) (value : List ℕ)
    → length value < 256
    → WellFormed b
    → WellFormed (add_sdes_normal_item b given t value).0
unfolding add_sdes_normal_item
add_sdes_normal_item-WellFormed b given t value short w =
    if_keeps WellFormed (not b.arebuilding) _ _ (λ off. w)
      (λ on.
        if_keeps WellFormed (length b.sdessources == 0) _ _ (λ no. w)
          (λ got. elim (Option-cases (normal_item_id t)) [
            | inl e ↦ rw e w
            | inr (k, e) ↦
                let (id, s) = normal_item_id-suc t k e in
                rw (e, s) (add_item_bytes-WellFormed b given id value w (is_on b on) short)
          ]))

pub add_sdes_private_item-WellFormed :
    (b : CompoundBuilder) (given : Bool) (pre value : List ℕ)
    → WellFormed b
    → WellFormed (add_sdes_private_item b given pre value).0
unfolding add_sdes_private_item
add_sdes_private_item-WellFormed b given pre value w =
    if_keeps WellFormed (not b.arebuilding) _ _ (λ off. w)
      (λ on.
        if_keeps WellFormed (length b.sdessources == 0) _ _ (λ no. w)
          (λ got.
            if_keeps WellFormed (ltb 255 (length pre + 1 + length value)) _ _ (λ long. w)
              (λ short.
                add_item_bytes-WellFormed b given 7 ((length pre % 256) ∷ (pre ++ value)) w
                  (is_on b on) (ground (arith, length-append pre value)))))
