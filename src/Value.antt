-- ===== src/Value.antt =====
-- Values of type `any` that travel between nodes: what encoding/json decodes (nil, bool, float64,
-- string, []any, map[string]any), Go integers, structs and pointers. A float64 is its bit pattern;
-- the operations on such patterns are parameters where they are used. Keys of an object are
-- unique, as those of a Go map are.
use nitejaguar.Base.{ℕ, ℤ, Bool, Option, none, some, Text, text_eq, ◌||◌, ◌&&◌, if◌then◌else◌}

mutual
  pub data Value : Type 0 where
    null : Value
    boolean : Bool → Value
    int : ℤ → Value
    float : ℕ → Value
    text : Text → Value
    list : Values → Value
    object : Fields → Value
    -- a struct, with its fields in declaration order
    structure : Members → Value
    nil_pointer : Value
    pointer : Value → Value

  pub data Values : Type 0 where
    nil : Values
    cons : Value → Values → Values

  pub data Fields : Type 0 where
    end : Fields
    field : Text → Value → Fields → Fields

  -- Go name, name part of the json tag, whether exported, value
  pub data Members : Type 0 where
    done : Members
    member : Text → Text → Bool → Value → Members → Members

-- m[k], with the map's "is present".
unfoldable pub get_field : Text → Fields → Option Value
get_field k end = none
get_field k (field j v fs) = if text_eq j k then some v else get_field k fs

-- m[k] = v
unfoldable pub put_field : Text → Value → Fields → Fields
put_field k v end = field k v end
put_field k v (field j w fs) = if text_eq j k then field j v fs else field j w (put_field k v fs)

-- The exported field whose json tag or whose Go name is `k`, the first in declaration order.
unfoldable pub get_member : Text → Members → Option Value
get_member k done = none
get_member k (member name tag exported v ms) =
    if exported && (text_eq tag k || text_eq name k) then some v else get_member k ms
