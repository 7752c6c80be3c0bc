-- ===== src/Kernel/Json.antt =====
-- The values of the dictionaries that the kernel reads: decoded JSON, with Python's equality and
-- truth value. Numbers are natural, counted in the smallest unit that a manifest uses.
use helios_os.Prelude.{
  ℕ, suc, String, str_eq, Bool, true, false, not, ◌&&◌, ◌||◌, ◌==◌, if◌then◌else◌,
}

mutual
  -- A dictionary, in insertion order.
  pub data Fields : Type 0 where
    no_fields : Fields
    field : String → Value → Fields → Fields

  pub data Items : Type 0 where
    no_items : Items
    item : Value → Items → Items

  pub data Value : Type 0 where
    dict : Fields → Value
    list : Items → Value
    str : String → Value
    num : ℕ → Value
    bool : Bool → Value
    null : Value

-- `d.get(key)`; an absent key reads as `None`.
unfoldable pub field_of : String → Fields → Value
field_of k no_fields = null
field_of k (field j v fs) = if str_eq j k then v else field_of k fs

unfoldable pub has_key : String → Fields → Bool
has_key k no_fields = false
has_key k (field j v fs) = str_eq j k || has_key k fs

unfoldable pub size_fields : Fields → ℕ
size_fields no_fields = 0
size_fields (field k v fs) = suc (size_fields fs)

abbrev pub bit : Bool → ℕ
bit true = 1
bit false = 0

-- `a == b`. A Boolean equals the number 0 or 1; dictionaries are compared with no regard to order.
unfoldable mutual
  unfolding size_fields field_of has_key

  pub value_eq : Value → Value → Bool
  value_eq null null = true
  value_eq (bool b) (bool c) = bit b == bit c
  value_eq (bool b) (num n) = bit b == n
  value_eq (num n) (bool c) = n == bit c
  value_eq (num n) (num m) = n == m
  value_eq (str s) (str t) = str_eq s t
  value_eq (list xs) (list ys) = items_eq xs ys
  value_eq (dict fs) (dict gs) = size_fields fs == size_fields gs && fields_in fs gs
  value_eq _ _ = false

  pub items_eq : Items → Items → Bool
  items_eq no_items no_items = true
  items_eq (item x xs) (item y ys) = value_eq x y && items_eq xs ys
  items_eq _ _ = false

  pub fields_in : Fields → Fields → Bool
  fields_in no_fields gs = true
  fields_in (field k v fs) gs = has_key k gs && value_eq v (field_of k gs) && fields_in fs gs

-- `bool(v)`
unfoldable pub truthy : Value → Bool
truthy null = false
truthy (bool b) = b
truthy (num n) = not (n == 0)
truthy (str s) = not (str_eq s "")
truthy (list no_items) = false
truthy (dict no_fields) = false
truthy _ = true

-- `v in xs` for a list.
unfoldable pub in_items : Value → Items → Bool
in_items v no_items = false
in_items v (item x xs) = value_eq v x || in_items v xs
