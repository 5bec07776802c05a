-- ===== src/Clock/Order.antt =====
-- The printed times sort as the times do.
use thorium_frugal.Base.{
  ℕ, ◌+◌, ◌≤◌, ◌<◌, ◌≡◌, refl, ap, ◌∙◌, Bool, false, ◌||◌, ◌&&◌, List, [], ◌∷◌, ◌++◌, arith, Bytes,
  ◌==◌, ltb, length, codes, take_all,
}
use thorium_frugal.Clock.{
  Exploded, month_to_second, snprintf_text, created_at_of, current_iso_utc_timestamp,
}
use thorium_frugal.Text.Digits.{
  fixed, power_of_ten, pad_zeros-fixed, to_string-fixed, length-fixed_append, str_less,
  str_less-fixed,
}

-- A time in the years from 1000 to 9999, by the bounds of its fields (a leap second included).
pub record IsCalendar (t : Exploded) : Type 0 where
  pub year_low : 1000 ≤ t.year
  pub year_high : t.year ≤ 9999
  pub month_high : t.month ≤ 12
  pub day_high : t.day_of_month ≤ 31
  pub hour_high : t.hour ≤ 23
  pub minute_high : t.minute ≤ 59
  pub second_high : t.second ≤ 60
  pub millisecond_high : t.millisecond ≤ 999

-- The first pair of different numbers decides; where there is none, the Boolean does.
abbrev pub earlier_by : List (ℕ × ℕ) → Bool → Bool
earlier_by [] less = less
earlier_by ((m, n) ∷ rest) less = ltb m n || (m == n && earlier_by rest less)

-- The fields of two times, down to the second.
abbrev pub fields : Exploded → Exploded → List (ℕ × ℕ)
fields s t =
    (s.year, t.year)
    ∷ (s.month, t.month)
    ∷ (s.day_of_month, t.day_of_month)
    ∷ (s.hour, t.hour)
    ∷ (s.minute, t.minute)
    ∷ (s.second, t.second)
    ∷ []

-- The texts with all fields at their widths.
abbrev shown_fields : Exploded → Bytes → Bytes
shown_fields t rest =
    fixed 4 t.year
    ++ (b'-'
        ∷ (fixed 2 t.month
            ++ (b'-'
                ∷ (fixed 2 t.day_of_month
                    ++ (b'T'
                        ∷ (fixed 2 t.hour
                            ++ (b':'
                                ∷ (fixed 2 t.minute ++ (b':' ∷ (fixed 2 t.second ++ rest))))))))))

month_to_second-fixed :
    (t : Exploded) (rest : Bytes)
    → IsCalendar t
    → fixed 4 t.year ++ month_to_second t rest ≡ shown_fields t rest
unfolding month_to_second
month_to_second-fixed t rest h =
    rw
      (
        pad_zeros-fixed 1 t.month (omega (arith, h.month_high)),
        pad_zeros-fixed 1 t.day_of_month (omega (arith, h.day_high)),
        pad_zeros-fixed 1 t.hour (omega (arith, h.hour_high)),
        pad_zeros-fixed 1 t.minute (omega (arith, h.minute_high)),
        pad_zeros-fixed 1 t.second (omega (arith, h.second_high)),
      )
      refl

millisecond_text : Exploded → Bytes
millisecond_text t = b'.' ∷ (fixed 3 t.millisecond ++ codes "Z")

length-shown_fields :
    (t : Exploded) (rest : Bytes) → length (shown_fields t rest) ≡ 19 + length rest
length-shown_fields t rest = simp length-fixed_append (omega arith)

created_at_of-fixed :
    (t : Exploded) → IsCalendar t → created_at_of t ≡ shown_fields t (millisecond_text t)
unfolding created_at_of snprintf_text millisecond_text
created_at_of-fixed t h =
    rw
      (
        pad_zeros-fixed 3 t.year (omega (arith, h.year_high)),
        pad_zeros-fixed 2 t.millisecond (omega (arith, h.millisecond_high)),
        month_to_second-fixed t (b'.' ∷ (fixed 3 t.millisecond ++ codes "Z")) h,
      )
      (take_all (shown_fields t (millisecond_text t)) 63 (
        omega (
          arith,
          length-shown_fields t (millisecond_text t),
          length-fixed_append 3 t.millisecond (codes "Z"),
        )))

current-fixed :
    (t : Exploded) → IsCalendar t → current_iso_utc_timestamp t ≡ shown_fields t (codes "Z")
unfolding current_iso_utc_timestamp
current-fixed t h =
    ap (λ (y : Bytes). y ++ month_to_second t (codes "Z"))
      (to_string-fixed 3 t.year (omega (arith, h.year_low)) (omega (arith, h.year_high)))
    ∙ month_to_second-fixed t (codes "Z") h

-- A field in front of two texts.
front :
    (w m n : ℕ) (s t : Bytes) {less : Bool}
    → m < power_of_ten w
    → n < power_of_ten w
    → str_less s t ≡ less
    → str_less (fixed w m ++ s) (fixed w n ++ t) ≡ (ltb m n || (m == n && less))
front w m n s t hm hn e =
    str_less-fixed w m n s t hm hn ∙ ap (λ (b : Bool). ltb m n || (m == n && b)) e

shown_fields-earlier :
    (s t : Exploded) (u v : Bytes)
    → IsCalendar s
    → IsCalendar t
    → str_less (shown_fields s u) (shown_fields t v) ≡ earlier_by (fields s t) (str_less u v)
unfolding str_less
shown_fields-earlier s t u v hs ht =
    front 4 s.year t.year _ _ (omega (arith, hs.year_high)) (omega (arith, ht.year_high)) (
      front 2 s.month t.month _ _ (omega (arith, hs.month_high)) (omega (arith, ht.month_high)) (
        front 2 s.day_of_month t.day_of_month _ _ (omega (arith, hs.day_high))
          (omega (arith, ht.day_high))
          (front 2 s.hour t.hour _ _ (omega (arith, hs.hour_high)) (omega (arith, ht.hour_high)) (
            front 2 s.minute t.minute _ _ (omega (arith, hs.minute_high))
              (omega (arith, ht.minute_high))
              (front 2 s.second t.second u v (omega (arith, hs.second_high))
                (omega (arith, ht.second_high)) refl)))))

millisecond_text-earlier :
    (s t : Exploded)
    → IsCalendar s
    → IsCalendar t
    → str_less (millisecond_text s) (millisecond_text t)
      ≡ earlier_by ((s.millisecond, t.millisecond) ∷ []) false
unfolding str_less millisecond_text
millisecond_text-earlier s t hs ht =
    front 3 s.millisecond t.millisecond (codes "Z") (codes "Z") (omega (arith, hs.millisecond_high))
      (omega (arith, ht.millisecond_high)) refl

-- The printed times of two calendar times of the years 1000 to 9999 compare, as strings, as the
-- times do: by their fields from the year to the millisecond for envelopes, and to the second for
-- events. The one text has 24 bytes, of which the buffer cuts none, and the other 20.
pub timestamps_sort :
    (s t : Exploded)
    → IsCalendar s
    → IsCalendar t
    → (str_less (created_at_of s) (created_at_of t)
        ≡ earlier_by (fields s t ++ (s.millisecond, t.millisecond) ∷ []) false)
      × (str_less (current_iso_utc_timestamp s) (current_iso_utc_timestamp t)
          ≡ earlier_by (fields s t) false)
      × (length (created_at_of t) ≡ 24)
      × (length (current_iso_utc_timestamp t) ≡ 20)
unfolding str_less millisecond_text
timestamps_sort s t hs ht = (
  rw (created_at_of-fixed s hs, created_at_of-fixed t ht)
      (shown_fields-earlier s t (millisecond_text s) (millisecond_text t) hs ht
        ∙ ap (earlier_by (fields s t)) (millisecond_text-earlier s t hs ht)),
  rw (current-fixed s hs, current-fixed t ht)
      (shown_fields-earlier s t (codes "Z") (codes "Z") hs ht),
  rw (created_at_of-fixed t ht) (
      omega (
        arith,
        length-shown_fields t (millisecond_text t),
        length-fixed_append 3 t.millisecond (codes "Z"),
      )),
  rw (current-fixed t ht) (length-shown_fields t (codes "Z")),
)
