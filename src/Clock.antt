-- ===== src/Clock.antt =====
-- The printed times: `CurrentIsoUtcTimestamp` of privacy/privacy_policy/privacy_policy_manager.cc, and
-- the constructors in cognitia_adapter/protocol. A time is given broken down, as `gmtime` and
-- `UTCExplode` return it.
pub mod Order
use thorium_frugal.Base.{ℕ, ◌-◌, ◌++◌, Bytes, codes, take}
use thorium_frugal.Text.Decimal.{to_string, pad_zeros}

-- The fields of `base::Time::Exploded` that are printed.
pub record Exploded : Type 0 where
  pub year : ℕ
  pub month : ℕ
  pub day_of_month : ℕ
  pub hour : ℕ
  pub minute : ℕ
  pub second : ℕ
  pub millisecond : ℕ

-- `%0wd`, and the fields of `put_time` that have two digits.
abbrev pub padded : ℕ → ℕ → Bytes
padded width n = pad_zeros width (to_string n)

-- From the month to the second, which both formats print alike, and what stands behind it.
unfoldable pub month_to_second : Exploded → Bytes → Bytes
month_to_second t rest =
    codes "-"
    ++ (padded 2 t.month
        ++ (codes "-"
            ++ (padded 2 t.day_of_month
                ++ (codes "T"
                    ++ (padded 2 t.hour
                        ++ (codes ":"
                            ++ (padded 2 t.minute
                                ++ (codes ":" ++ (padded 2 t.second ++ rest)))))))))

-- `char buffer[64]`, and what `snprintf` leaves in it: the text, cut to make room for a zero byte.
abbrev pub buffer_size : ℕ
buffer_size = 64

unfoldable pub snprintf_text : Bytes → Bytes
snprintf_text text = take (buffer_size - 1) text

-- `created_at_` of an envelope.
unfoldable pub created_at_of : Exploded → Bytes
created_at_of t =
    snprintf_text
      (padded 4 t.year ++ month_to_second t (codes "." ++ (padded 3 t.millisecond ++ codes "Z")))

-- `%Y` is not padded.
unfoldable pub current_iso_utc_timestamp : Exploded → Bytes
current_iso_utc_timestamp t = to_string t.year ++ month_to_second t (codes "Z")
