-- ===== src/Tests/Adapters.antt =====
-- Calls through the adapters.
use chaotic.Base.{
  ℕ, zero, suc, ◌+◌, ◌≤◌, refl, false, [], ◌∷◌, Option, none, some, Text, bytes, pos, length, arith,
}
use chaotic.Fault.{Any, truncation}
use chaotic.Engine.World.{enabled}
use chaotic.Adapter.{CallErr, own, Ended, ends, panics, Returned}
use chaotic.Adapter.Http.{HttpLib, Response, Request, round_trip}
use chaotic.Adapter.Http.Settling.{Trips, trip_op, round_trip-Trips}
use chaotic.Adapter.Httpsrv.{Exchange, Handler, header, no_hijacker, middleware}
use chaotic.Adapter.Httpsrv.Settling.{Serves, serve_op, middleware-Serves}
use chaotic.Adapter.Io.{Stream, shape_read, shape_write, write}
use chaotic.Adapter.Io.Cap.{
  IsWriter, bytes_read, bytes_written, read_all, write_all, truncated-le-limit,
}
use chaotic.Adapter.Io.Contract.{Writes, write-Writes}
use chaotic.Adapter.Clients.{
  BrokersSettle, ServicesSettle, HooksSettle, brokers-Settle, services-Settle, hooks-Settle,
}
use chaotic.Adapter.Reporting.{begin}
use chaotic.Adapter.Redis.{Cmd, Processed}
use chaotic.Tests.{noon, world}

-- A client that counts its calls.
abbrev send : ℕ → ℕ × Option CallErr
send n = (n + 1, some (own (bytes "refused")))

abbrev fetch : ℕ → ℕ × Returned Text
fetch n = (n + 1, (some (bytes "v"), none))

abbrev key : Text
key = bytes "k"

brokers-Settle_example : BrokersSettle send fetch key key key key key key noon world 0
brokers-Settle_example =
    brokers-Settle send fetch key key key key key key noon world 0 (omega arith)

services-Settle_example :
    ServicesSettle fetch key key key key key key key (some (key, key)) noon world 0
services-Settle_example =
    services-Settle fetch key key key key key key key (some (key, key)) noon world 0 (omega arith)

abbrev get : Cmd
get = record { name = bytes "get"; args = some (bytes "get") ∷ some key ∷ [] }

abbrev answered : ℕ → ℕ × Processed
answered n = (n + 1, record { cmd_errs = []; err = none })

-- A handler that panics, and one that fails.
abbrev crash : ℕ → ℕ × Ended (Returned Text)
crash n = (n + 1, panics Any.nil)

abbrev recv : ℕ → ℕ × Ended (Option CallErr)
recv n = (n + 1, ends (some (own (bytes "cut"))))

hooks-Settle_example :
    HooksSettle (λ e. none) key Any.nil send fetch crash recv get (get ∷ []) answered noon world 0
hooks-Settle_example =
    hooks-Settle (λ e. none) key Any.nil send fetch crash recv get (get ∷ []) answered noon world 0
      (omega arith)

abbrev http : HttpLib ℕ
http = record {
  no_headers = 0;
  del = λ k h. h;
  set = λ k v h. h + 1;
  status_text = λ c. bytes "text";
  itoa = λ c. bytes "503";
  as_response = λ v. none;
  as_any = λ r. Any.nil;
}

abbrev ok_response : ℕ → ℕ × Returned (Response ℕ)
ok_response n = (
  n + 1,
  (
    some (record {
      code = pos 200;
      status = bytes "200 OK";
      header = 0;
      body = [];
      content_length = pos 0;
    }),
    none,
  ),
)

abbrev request : Request
request = record {
  path = bytes "/";
  method = bytes "GET";
  host = bytes "h";
  url = bytes "http://h/";
}

round_trip-Trips_example :
    Trips http ok_response request.url
      (begin noon (trip_op request) world)
      world
      0
      (round_trip http ok_response request noon world 0)
unfolding enabled
round_trip-Trips_example = round_trip-Trips http ok_response request noon world 0 refl (omega arith)

abbrev exchange : Exchange ℕ
exchange = record {
  path = bytes "/";
  method = bytes "GET";
  remote = bytes "r";
  headers = 0;
  hijack = no_hijacker;
  rejects = λ c. none;
  del = λ k h. h;
  set = λ k v h. h + 1;
  status_text = λ c. bytes "text";
  error_text = λ e. bytes "text";
}

abbrev crashes : Handler ℕ ℕ
crashes h n = (n + 1, header (pos 200) ∷ [], some (Any.text (bytes "crash")))

middleware-Serves_example :
    let (a, _, o) = begin noon (serve_op exchange) world in
    Serves crashes exchange o a world 0 (middleware crashes exchange noon world 0)
unfolding enabled
middleware-Serves_example = middleware-Serves crashes exchange noon world 0 refl (omega arith)

-- A reader of zeros, and a writer that keeps nothing.
zeros : ℕ → Text
zeros zero = []
zeros (suc k) = 0 ∷ zeros k

zeros-le : (k : ℕ) → length (zeros k) ≤ k
unfolding zeros
zeros-le zero = omega arith
zeros-le (suc k) = omega (arith, zeros-le k)

abbrev reader : ℕ → ℕ → ℕ × Text × Option CallErr
reader k n = (n + 1, zeros k, none)

abbrev discard : Text → ℕ → ℕ × ℕ × Option CallErr
discard b n = (n + 1, length b, none)

discard-IsWriter : IsWriter discard
discard-IsWriter b s = (omega arith, λ e. refl)

abbrev stream : Stream ℕ
stream = record { inner = 0; armed = false; remaining = pos 0 }

truncated-le-limit_example :
    let (r1, m1) = shape_read reader truncation (pos 0) (pos 5) 4 stream in
    let (r2, m2) = shape_write discard truncation (pos 0) (pos 5) key stream in
    (bytes_read m1 + read_all reader ((4, noon) ∷ []) world r1 ≤ 5)
    × (bytes_written m2 + write_all discard ((key, noon) ∷ []) world r2 ≤ 5)
unfolding enabled
truncated-le-limit_example =
    truncated-le-limit reader discard (pos 0) (pos 5) 4 key ((4, noon) ∷ []) ((key, noon) ∷ [])
      world stream (λ k s. zeros-le k) discard-IsWriter refl

write-Writes_example : Writes key (write discard key noon world stream).2
write-Writes_example = write-Writes discard key noon world stream discard-IsWriter
