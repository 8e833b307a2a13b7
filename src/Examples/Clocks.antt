-- ===== src/Examples/Clocks.antt =====
-- Exchanges with a time server, and cycles of them.
use but_telepresence.Prelude.{◌≡◌, refl, false, [], ◌⊎◌, arith, ◌+◌}
use but_telepresence.Prelude.Int.{pos}
use but_telepresence.Prelude.Text.{codes}
use but_telepresence.Headset.Ntp.{
  Timer, Exchange, Smooth, fails, answers, offset_of, delay_of, take_samples, sync_with_server,
  get_one_ntp_sample, finish_cycle, best_index,
}
use but_telepresence.Headset.Ntp.Sample.{IsExchange, IsWithin, offset_of-IsWithin}
use but_telepresence.Headset.Ntp.Cycle.{three, Keeps, UsesBest, sync_with_server_lem}

-- The server is half a second ahead; the request takes 1 ms and the response 2 ms.
half_second : IsExchange 500000 0 1000 50 2000 1000000 1501000 1501050 1003050
half_second = record {
  arrives = omega arith;
  leaves = omega arith;
  returns = omega arith;
  bound_3 = omega arith;
  bound_4 = omega arith;
}

offset_of-IsWithin_example :
    (delay_of 1000000 1501000 1501050 1003050 ≡ 3000)
    × IsWithin
        (delay_of 1000000 1501000 1501050 1003050 + 1)
        500000
        0
        (offset_of 1000000 1501000 1501050 1003050)
offset_of-IsWithin_example =
    offset_of-IsWithin 500000 0 1000 50 2000 1000000 1501000 1501050 1003050 half_second

offset_measured : offset_of 1000000 1501000 1501050 1003050 ≡ pos 499500
unfolding offset_of
offset_measured = refl

-- A time in the year 2100.
abbrev smooth : Smooth
smooth offset smoothed = smoothed

abbrev pub fresh : Timer
fresh = record {
  server = codes "10.0.31.42";
  fallback_server = codes "pool.ntp.org";
  using_fallback = false;
  smoothed_offset_us = pos 0;
  has_initial_offset = false;
  last_synced_timestamp_local = 0;
  sync_healthy = false;
  consecutive_sync_failures = 0;
}

abbrev slow : Exchange
slow = answers 1000000 1012000 1012000 1024000 1024000

abbrev quick : Exchange
quick = answers 1000000 1501000 1501050 1003050 1003060

sync_with_server_lem_example :
    (((take_samples (three slow quick fails) fresh).0 ≡ [])
      × Keeps fresh (sync_with_server smooth 1003070 slow quick fails fresh))
    ⊎ UsesBest smooth 1003070
        (take_samples (three slow quick fails) fresh).0
        (take_samples (three slow quick fails) fresh).1
        (sync_with_server smooth 1003070 slow quick fails fresh)
sync_with_server_lem_example = sync_with_server_lem smooth 1003070 slow quick fails fresh

quick_used :
    (sync_with_server smooth 1003070 slow quick fails fresh).smoothed_offset_us ≡ pos 499500
unfolding sync_with_server get_one_ntp_sample offset_of delay_of finish_cycle best_index
quick_used = refl
