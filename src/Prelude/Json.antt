-- ===== src/Prelude/Json.antt =====
-- JSON values.
use Prim.Native.Nat.{ℕ}
use Prim.Native.String.{String}
use mathlib.Core.Bool.{Bool}
use mathlib.Core.Option.{Option, none, some}
use text.Mathlib.Text.{◌==◌ as str_eq}
use developer_assistant.Prelude.Tests.{if◌then◌else◌}
use developer_assistant.Prelude.Text.{Text}

-- What `json.loads` gives, with the keys of an object in their order.
mutual
  pub data Json : Type 0 where
    string : Text → Json
    number : ℕ → Json
    boolean : Bool → Json
    null : Json
    array : Items → Json
    object : Members → Json

  pub data Items : Type 0 where
    no_items : Items
    item : Json → Items → Items

  pub data Members : Type 0 where
    no_members : Members
    member : String → Json → Members → Members

-- d.get(k)
unfoldable pub member_of : String → Members → Option Json
member_of k no_members = none
member_of k (member j v ms) = let rest = member_of k ms in if str_eq j k then some v else rest

-- v.get(k) if isinstance(v, dict) else None
unfoldable pub field_of : String → Json → Option Json
unfolding member_of
field_of k (object ms) = member_of k ms
field_of k v = none

abbrev pub field_of_field : String → Option Json → Option Json
unfolding field_of
field_of_field k none = none
field_of_field k (some v) = field_of k v
