-- ===== src/Log/Tests.antt =====
-- Runs of the log stream, and its theorems at concrete streams.
use my_cpp_code.Common.{◌≡◌, refl, true, [], ◌++◌, some, codes, replicate}
use my_cpp_code.Log.FixedBuffer.{FixedBuffer}
use my_cpp_code.Log.Stream.{LogStream, digit_loop}

abbrev line : FixedBuffer
line = record { array = codes "n=" ++ replicate 60 0; cur = 2 }

abbrev stream : LogStream
stream = record { buffer = line }

-- The lowest of the 64-bit integers.
lowest : digit_loop 20 true 9223372036854775808 [] ≡ some (codes "8085774586302733229")
unfolding digit_loop
lowest = refl
