-- ===== src/Go/Runtime.antt =====
-- The parts of the standard library whose tables and roundings are not written out: an argument
-- of every function that uses them. `strings` beyond ASCII, `strconv.ParseFloat`, `fmt`'s `%.nf`,
-- float arithmetic, the escapes of `net/url`, and the format of times.
use crypto_sentinel.Prelude.{ℕ, Bool, List, Option, Bytes}
use crypto_sentinel.Prelude.Int.{ℤ}
use crypto_sentinel.Go.Float64.{Float64}

-- The results of `strconv.ParseFloat(s, 64)`: the value, and whether the error is nil.
pub record Parsed : Type 0 where
  pub value : Float64
  pub valid : Bool

pub record Runtime : Type 0 where
  -- strings.Map(unicode.ToLower, s), strings.Map(unicode.ToUpper, s)
  pub map_lower : Bytes → Bytes
  pub map_upper : Bytes → Bytes
  -- strings.TrimFunc(s, unicode.IsSpace), strings.TrimRightFunc(s, unicode.IsSpace)
  pub trim_space_func : Bytes → Bytes
  pub trim_right_space_func : Bytes → Bytes
  -- strings.FieldsFunc(s, unicode.IsSpace)
  pub fields_func : Bytes → List Bytes
  -- the loop of strings.EqualFold behind the first byte that is not ASCII
  pub equal_fold_unicode : Bytes → Bytes → Bool
  pub parse_float : Bytes → Parsed
  -- fmt.Sprintf("%.<n>f", v)
  pub fixed : ℕ → Float64 → Bytes
  pub add : Float64 → Float64 → Float64
  pub sub : Float64 → Float64 → Float64
  pub mul : Float64 → Float64 → Float64
  pub div : Float64 → Float64 → Float64
  -- float64(n) and int64(v)
  pub of_int : ℕ → Float64
  pub to_int64 : Float64 → ℤ
  pub query_escape : Bytes → Bytes
  pub path_escape : Bytes → Bytes
  -- the error of http.NewRequestWithContext(ctx, http.MethodGet, url, nil), if it is not nil
  pub request_error : Bytes → Option Bytes
  -- strings.Title
  pub title : Bytes → Bytes
  -- time.Unix(ts, 0).UTC().Format("2006-01-02 15:04 MST")
  pub format_utc : ℤ → Bytes
