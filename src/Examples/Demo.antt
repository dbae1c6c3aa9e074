-- ===== src/Examples/Demo.antt =====
-- Concrete libraries for the examples. A number is read as its integer part, whose bits are those
-- of the smallest floats, in order, and is printed with four zeros behind the point.
use mathlib.Core.List.Perm
use crypto_sentinel.Go.Chance.{Chance, IsChance}
use crypto_sentinel.Prelude.{
  ℕ, ◌+◌, ◌-◌, ◌^◌, Bool, true, false, [], ◌∷◌, ◌++◌, Option, none, some, Bytes, if◌then◌else◌,
  ◌==◌, ◌≡◌,
}
use crypto_sentinel.Prelude.Int.{pos}
use crypto_sentinel.Go.Runtime.{Runtime, Parsed}
use crypto_sentinel.Go.Float64.{float}
use crypto_sentinel.Go.Text.{text, beq}
use crypto_sentinel.Go.Http.{Request, Response, response}
use crypto_sentinel.Go.Decimal.{scan, format_uint}

-- A server that answers every request with an empty body.
abbrev pub IsEmptyReply : Request → Response → Type 0
IsEmptyReply q r = r ≡ response 200 []

abbrev parsed : Bool → Option ℕ → Parsed
parsed negative none = record { value = float 0; valid = false }
parsed negative (some n) = record {
  value = float (if negative then 2 ^ 63 + n else n);
  valid = true;
}

unfoldable pub parse_demo : Bytes → Parsed
unfolding scan
parse_demo [] = parsed false none
parse_demo (c ∷ s) = if c == b'-' then parsed true (scan 0 s) else parsed false (scan 0 (c ∷ s))

instance abbrev pub demo : Runtime
demo = record {
  map_lower = λ s. s;
  map_upper = λ s. s;
  trim_space_func = λ s. s;
  trim_right_space_func = λ s. s;
  fields_func = λ s. s ∷ [];
  equal_fold_unicode = beq;
  parse_float = parse_demo;
  fixed = λ n v. format_uint v.bits ++ text ".0000";
  add = λ x y. float (x.bits + y.bits);
  sub = λ x y. float (x.bits - y.bits);
  mul = λ x y. x;
  div = λ x y. x;
  of_int = λ n. float n;
  to_int64 = λ v. pos v.bits;
  query_escape = λ s. s;
  path_escape = λ s. s;
  request_error = λ u. none;
  title = λ s. s;
  format_utc = λ t. text "now";
}

instance abbrev pub in_order : Chance
in_order = record { reorder = λ A xs. xs }

pub in_order-IsChance : IsChance in_order
in_order-IsChance = record { perm = λ A xs. Perm.rfl }
