-- ===== src/Packet/Timestamp.antt =====
-- The TIMESTAMP cell's split of nanoseconds into seconds and microseconds.
use stoolap_mariadb.Common.{◌+◌, ◌*◌, ◌<◌, ◌≡◌, arith}
use stoolap_mariadb.Common.Int.{ℤ, pos, negsuc, pos_part, neg_part, tdiv}
use stoolap_mariadb.Packet.{timestamp_parts}

-- Seconds and microseconds are the nanoseconds over 1000, cut towards zero, in whole microseconds;
-- the microseconds are 0 to 999999 also before 1970.
pub timestamp_parts_lem :
    (nanos : ℤ)
    → let (secs, us) = timestamp_parts nanos in
      (neg_part us ≡ 0)
      × (pos_part us < 1000000)
      × (pos_part secs * 1000000 + pos_part us + neg_part (tdiv nanos 1000)
          ≡ neg_part secs * 1000000 + pos_part (tdiv nanos 1000))
unfolding timestamp_parts
timestamp_parts_lem (pos n) = ground arith
timestamp_parts_lem (negsuc n) = ground arith
