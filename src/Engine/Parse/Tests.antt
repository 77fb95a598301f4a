-- ===== src/Engine/Parse/Tests.antt =====
-- Runs of the validators on one decoded frame.
use vanilla_bus.Prelude.{◌≡◌, refl, false, [], ◌∷◌, some, codes, All}
use vanilla_bus.Prelude.Int.{pos}
use vanilla_bus.Prelude.Strings.{same}
use vanilla_bus.Prelude.Assoc.{insert}
use vanilla_bus.Engine.Value.{Value, integral, number, array, object, nil, item, end, field, get}
use vanilla_bus.Engine.Types.{FrameEvent, FrameDecode, num, rx}
use vanilla_bus.Engine.Parse.{parse_frame_event, parse_rx_batch}
use vanilla_bus.Engine.Parse.Sound.{IsFrame, IsDecode, parse_rx_batch-All}
use vanilla_bus.Engine.Parse.RoundTrip.{of_frame, parse_frame_event-of_frame}

abbrev speed : FrameDecode
speed = record {
  name = codes "ENGINE";
  signals = (codes "speed", num (integral (pos 90))) ∷ [];
  units = (codes "speed", codes "km/h") ∷ [];
}

abbrev sample : FrameEvent
sample = record {
  bus_id = codes "bus";
  if_name = codes "vcan0";
  ts_us = integral (pos 5);
  can_id = 257;
  dlc = 1;
  payload = codes "5a";
  is_eff = false;
  is_fd = false;
  brs = false;
  is_rtr = false;
  is_err = false;
  dir = rx;
  rate_ms = some (integral (pos 20));
  decode = some speed;
}

speed-IsDecode : IsDecode speed
unfolding same
speed-IsDecode = record {
  named = λ e. cc;
  signals = ((refl, refl), tt);
  signals_once = (refl, tt);
  units = ((refl, λ e. cc), tt);
  units_once = (refl, tt);
}

sample-IsFrame : IsFrame sample
sample-IsFrame = record {
  bus = λ e. cc;
  interface = λ e. cc;
  time = refl;
  rated = refl;
  decoded = speed-IsDecode;
}

abbrev two_times : Value
two_times = object (
    field (codes "frames") (array (item (of_frame sample) (item (of_frame sample) nil)))
      (field (codes "dropped") (number (integral (pos 3))) end))

parse_two_times :
    parse_rx_batch two_times ≡ some (record { frames = sample ∷ sample ∷ []; dropped = pos 3 })
unfolding parse_rx_batch of_frame get same parse_frame_event insert
parse_two_times = refl

parse_frame_event-of_frame_example : parse_frame_event (of_frame sample) ≡ some sample
parse_frame_event-of_frame_example = parse_frame_event-of_frame sample sample-IsFrame

parse_rx_batch-All_example : All IsFrame (sample ∷ sample ∷ [])
parse_rx_batch-All_example =
    parse_rx_batch-All two_times (record { frames = sample ∷ sample ∷ []; dropped = pos 3 })
      parse_two_times
