-- ===== src/Samples/ConvWitnesses.antt =====
-- The theorems on the formats, applied to samples.
use skewer.Prelude.{◌≡◌, some, length, arith}
use skewer.Prelude.Int.{negsuc}
use skewer.Conv.{time_to_bytes, bytes_to_time}
use skewer.Conv.RoundTrip.{bytes_to_time-time_to_bytes}

bytes_to_time-time_to_bytes_example :
    bytes_to_time (time_to_bytes (negsuc 1000))
    ≡ some (negsuc 1000, length (time_to_bytes (negsuc 1000)))
bytes_to_time-time_to_bytes_example = bytes_to_time-time_to_bytes (negsuc 1000) (omega arith)
