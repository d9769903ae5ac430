-- ===== src/Core/Meta/Laws.antt =====
-- When a `_meta` object counts as empty.
use longhaul.Base.{◌≡◌, ◌↔◌, true, arith}
use longhaul.Core.Meta.{Meta, default_meta, is_empty}

is_empty_parts : (m : Meta) → is_empty m ≡ true → m ≡ default_meta
unfolding is_empty
is_empty_parts m h = ground arith

-- `is_empty` holds of the default `_meta` and of no other: of one with a client identity, a trace
-- key or a single extra key it is false.
pub is_empty_iff : (m : Meta) → (is_empty m ≡ true) ↔ (m ≡ default_meta)
unfolding is_empty
is_empty_iff m = (λ h. is_empty_parts m h, λ h. rw h)
