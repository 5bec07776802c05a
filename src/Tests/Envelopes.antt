-- ===== src/Tests/Envelopes.antt =====
-- The theorems on times and envelopes at given values.
use thorium_frugal.Base.{◌≡◌, refl, false, [], ◌∷◌, ◌++◌, some, arith, codes, length}
use thorium_frugal.Clock.{
  Exploded, snprintf_text, month_to_second, created_at_of, current_iso_utc_timestamp,
}
use thorium_frugal.Clock.Order.{IsCalendar, earlier_by, fields, timestamps_sort}
use thorium_frugal.Envelope.{pos, negsuc}
use thorium_frugal.Envelope.Observation.{ObservationEnvelope, tab_closed, to_value_dict}
use thorium_frugal.Envelope.RoundTrip.{read_observation, read_observation-to_value_dict}
use thorium_frugal.Tests.Values.{tree_api, tree_api-IsMap}
use thorium_frugal.Text.Decimal.{pad_zeros, to_string}
use thorium_frugal.Text.Digits.{str_less}

abbrev pub noon : Exploded
noon = record {
  year = 2026;
  month = 3;
  day_of_month = 1;
  hour = 12;
  minute = 0;
  second = 0;
  millisecond = 7;
}

abbrev later : Exploded
later = record noon { day_of_month = 11; hour = 2 }

noon-IsCalendar : IsCalendar noon
noon-IsCalendar = record {
  year_low = omega arith;
  year_high = omega arith;
  month_high = omega arith;
  day_high = omega arith;
  hour_high = omega arith;
  minute_high = omega arith;
  second_high = omega arith;
  millisecond_high = omega arith;
}

later-IsCalendar : IsCalendar later
later-IsCalendar = record {
  year_low = omega arith;
  year_high = omega arith;
  month_high = omega arith;
  day_high = omega arith;
  hour_high = omega arith;
  minute_high = omega arith;
  second_high = omega arith;
  millisecond_high = omega arith;
}

timestamps_example :
    (str_less (created_at_of noon) (created_at_of later)
      ≡ earlier_by (fields noon later ++ (noon.millisecond, later.millisecond) ∷ []) false)
    × (str_less (current_iso_utc_timestamp noon) (current_iso_utc_timestamp later)
        ≡ earlier_by (fields noon later) false)
    × (length (created_at_of later) ≡ 24)
    × (length (current_iso_utc_timestamp later) ≡ 20)
timestamps_example = timestamps_sort noon later noon-IsCalendar later-IsCalendar

noon_text : created_at_of noon ≡ codes "2026-03-01T12:00:00.007Z"
unfolding created_at_of snprintf_text month_to_second pad_zeros to_string
noon_text = refl

abbrev closing : ObservationEnvelope
closing = record {
  id = codes "id";
  created_at = created_at_of noon;
  event_type = tab_closed;
  window_id = pos 1;
  tab_id = negsuc 0;
  is_active_tab = false;
  url = [];
  origin = [];
  title = codes "A";
  is_incognito = false;
}

observation_example : read_observation tree_api (to_value_dict tree_api closing) ≡ some closing
observation_example = read_observation-to_value_dict tree_api tree_api-IsMap closing
