-- ===== src/Auth/Canonical.antt =====
-- Canonical JSON does not depend on the order of members.
use crypto_gateway_rp.Common.{◌≡◌, refl, ap, ◌∙◌, false}
use crypto_gateway_rp.Text.{Text, eq_text}
use crypto_gateway_rp.Auth.Json.{
  Json, array, object, Items, no_items, item, Members, no_members, member, canonical_json_stringify,
  item_texts, sorted_parts, with_comma, enclosed, member_texts, insert_part,
}
use crypto_gateway_rp.Auth.Order.{insert_part_swap}

-- The same values, with the members of objects in another order at any depth. Two members with one key
-- are not exchanged.
mutual
  pub data Reordered : Json → Json → Type 0 where
    same : {v : Json} → Reordered v v
    in_array : {xs ys : Items} → ReorderedItems xs ys → Reordered (array xs) (array ys)
    in_object : {ms ns : Members} → ReorderedMembers ms ns → Reordered (object ms) (object ns)

  pub data ReorderedItems : Items → Items → Type 0 where
    items_end : ReorderedItems no_items no_items
    items_step :
        {v w : Json} {xs ys : Items}
        → Reordered v w
        → ReorderedItems xs ys
        → ReorderedItems (item v xs) (item w ys)

  pub data ReorderedMembers : Members → Members → Type 0 where
    members_end : ReorderedMembers no_members no_members
    members_step :
        {k : Text} {v w : Json} {ms ns : Members}
        → Reordered v w
        → ReorderedMembers ms ns
        → ReorderedMembers (member k v ms) (member k w ns)
    exchange :
        {j k : Text} {v w : Json} {ms : Members}
        → eq_text j k ≡ false
        → ReorderedMembers (member j v (member k w ms)) (member k w (member j v ms))
    in_turn :
        {ls ms ns : Members}
        → ReorderedMembers ls ms
        → ReorderedMembers ms ns
        → ReorderedMembers ls ns

ap_both : {A B C : Type 0} (f : A → B → C) {a a' : A} {b b' : B} → a ≡ a' → b ≡ b' → f a b ≡ f a' b'
ap_both f {a} {a'} {b} {b'} p q = ap (λ x. f x b) p ∙ ap (f a') q

mutual
  unfolding canonical_json_stringify

  value-Reordered :
      {v w : Json} → Reordered v w → canonical_json_stringify v ≡ canonical_json_stringify w
  value-Reordered same = refl
  value-Reordered (in_array r) = ap (enclosed b'[' b']') (item_texts-Reordered r)
  value-Reordered (in_object r) =
      ap (λ ps. enclosed b'{' b'}' (member_texts ps)) (sorted_parts-Reordered r)

  item_texts-Reordered : {xs ys : Items} → ReorderedItems xs ys → item_texts xs ≡ item_texts ys
  item_texts-Reordered items_end = refl
  item_texts-Reordered (items_step r items_end) = value-Reordered r
  item_texts-Reordered (items_step r (items_step q rs)) =
      ap_both with_comma (value-Reordered r) (item_texts-Reordered (items_step q rs))

  sorted_parts-Reordered :
      {ms ns : Members} → ReorderedMembers ms ns → sorted_parts ms ≡ sorted_parts ns
  sorted_parts-Reordered members_end = refl
  sorted_parts-Reordered (members_step {k} r rs) =
      ap_both (λ t ps. insert_part (k, t) ps) (value-Reordered r) (sorted_parts-Reordered rs)
  sorted_parts-Reordered (exchange {j} {k} {v} {w} {ms} h) =
      insert_part_swap (j, canonical_json_stringify v) (k, canonical_json_stringify w)
        (sorted_parts ms) h
  sorted_parts-Reordered (in_turn p q) = sorted_parts-Reordered p ∙ sorted_parts-Reordered q

-- Values that differ in the order of members alone have one canonical text, or none has one.
pub canonical_json_stringify-Reordered :
    {v w : Json} → Reordered v w → canonical_json_stringify v ≡ canonical_json_stringify w
canonical_json_stringify-Reordered = value-Reordered
