-- ===== src/Connect.antt =====
-- The response writer of an intercepted connection: connectResponseWriter of
-- cmd/goaptcacher/proxy_connect.go.
pub mod Hex
pub mod Decode
pub mod Response
pub mod Plain
mod Tests
use go_aptcacher.Base.{
  ℕ, zero, suc, ◌+◌, ◌-◌, ◌/◌, ◌%◌, Bool, true, false, not, ◌&&◌, ◌||◌, List, [], ◌∷◌, ◌++◌, Option,
  none, some, if◌then◌else◌, ltb, leb, ◌==◌, length,
}
use go_aptcacher.Base.Text.{Text, codes, is_empty, text_eq, to_lower, trim_space, contains}
use go_aptcacher.Base.Map.{Map, lookup, insert, delete}
use go_aptcacher.Keys.{itoa}

-- The error that a bufio.Writer gives from the first failed write on.
pub data ConnError : Type 0 where
  broken : ConnError

-- connectResponseWriter. `sent` is what has been written to `bw`, and `failed` whether `bw` holds an
-- error: then it takes no more. When the buffer goes out to the connection is left open.
pub record ResponseWriter : Type 0 where
  pub sent : Text
  pub failed : Bool
  pub header : Map (List Text)
  pub wrote_header : Bool
  pub status : ℕ
  pub chunked : Bool
  pub close_after : Bool

-- newConnectResponseWriter
abbrev pub new_connect_response_writer : ResponseWriter
new_connect_response_writer = record {
  sent = [];
  failed = false;
  header = [];
  wrote_header = false;
  status = 0;
  chunked = false;
  close_after = false;
}

-- http.Header.Get, for a key in its canonical form.
abbrev pub first_value : Option (List Text) → Text
first_value none = []
first_value (some []) = []
first_value (some (v ∷ vs)) = v

unfoldable pub header_get : Text → Map (List Text) → Text
header_get key header = first_value (lookup key header)

-- http.Header.Set, for a key in its canonical form.
unfoldable pub header_set : Text → Text → Map (List Text) → Map (List Text)
header_set key value header = insert key (value ∷ []) header

-- statusNoBody
unfoldable pub status_no_body : ℕ → Bool
status_no_body status =
    if leb 100 status && leb status 199 then true else (status == 204) || (status == 304)

-- A write to `bw`.
unfoldable pub send : Text → ResponseWriter → Option ConnError × ResponseWriter
send s w = if w.failed then (some broken, w) else (none, record w { sent = w.sent ++ s })

-- The next write, after one that did not fail.
unfoldable pub then_send :
    Text → Option ConnError × ResponseWriter → Option ConnError × ResponseWriter
unfolding send
then_send s (none, w) = send s w
then_send s (some error, w) = (some error, w)

abbrev pub crlf : Text
crlf = codes "\r\n"

-- The verb %x of package fmt, with more fuel than the number has digits.
unfoldable pub hex_digit : ℕ → ℕ
hex_digit d = if ltb d 10 then b'0' + d else b'a' + (d - 10)

unfoldable pub hex : ℕ → ℕ → Text
unfolding hex_digit
hex zero n = []
hex (suc fuel) n =
    let front = hex fuel (n / 16) in
    if ltb n 16 then hex_digit n ∷ [] else front ++ hex_digit (n % 16) ∷ []

abbrev pub content_length : Text
content_length = codes "Content-Length"

abbrev pub transfer_encoding : Text
transfer_encoding = codes "Transfer-Encoding"

unfoldable pub header_values : Text → List Text → Text
header_values key [] = []
header_values key (v ∷ vs) = key ++ codes ": " ++ v ++ crlf ++ header_values key vs

unfoldable pub header_lines : Map (List Text) → Text
unfolding header_values
header_lines [] = []
header_lines ((key, values) ∷ header) = header_values key values ++ header_lines header

unfoldable pub effective_status : ResponseWriter → ℕ
effective_status w = if w.status == 0 then 200 else w.status

-- The `Connection` header of writeHeader. (EqualFold, over ASCII.)
unfoldable pub set_close_after : ResponseWriter → ResponseWriter
unfolding header_get
set_close_after w =
    let v = header_get (codes "Connection") w.header in
    if not (is_empty v) && text_eq (to_lower (trim_space v)) (codes "close")
    then record w { close_after = true }
    else w

-- The choice of the transfer encoding in writeHeader.
unfoldable pub set_encoding : ResponseWriter → ResponseWriter
unfolding header_get header_set status_no_body effective_status
set_encoding w =
    if is_empty (header_get content_length w.header)
    then (let te = header_get transfer_encoding w.header in
        if is_empty te
        then (if status_no_body (effective_status w) then w else record w {
          chunked = true;
          header = header_set transfer_encoding (codes "chunked") w.header;
        })
        else if contains (codes "chunked") (to_lower te)
        then record w { chunked = true }
        else w)
    else w

unfoldable pub drop_content_length : ResponseWriter → ResponseWriter
drop_content_length w =
    if w.chunked then record w { header = delete content_length w.header } else w

-- The end of writeHeader, if all of it was written.
unfoldable pub header_done : Option ConnError × ResponseWriter → Option ConnError × ResponseWriter
header_done (none, w) = (none, record w { wrote_header = true })
header_done (some error, w) = (some error, w)

-- http.StatusText is an argument.
module _ (status_text : ℕ → Text) where
  unfoldable pub header_text : ResponseWriter → Text
  unfolding header_lines effective_status
  header_text w =
      codes "HTTP/1.1 "
      ++ itoa (effective_status w)
      ++ codes " "
      ++ status_text (effective_status w)
      ++ crlf
      ++ header_lines w.header
      ++ crlf

  -- writeHeader. Its writes are one here: where the first fails, the others would too.
  unfoldable pub write_header : ResponseWriter → Option ConnError × ResponseWriter
  unfolding set_close_after set_encoding drop_content_length header_done header_text send
  write_header w =
      if w.wrote_header
      then (none, w)
      else (let w' = drop_content_length (set_encoding (set_close_after w)) in
          header_done (send (header_text w') w'))

  -- WriteHeader
  unfoldable pub write_header_status : ℕ → ResponseWriter → ResponseWriter
  unfolding write_header
  write_header_status status w =
      if w.wrote_header then w else (write_header (record w { status = status })).1

  -- The number of bytes that Write returns.
  abbrev pub count : ℕ → Option ConnError × ResponseWriter → (ℕ × Option ConnError) × ResponseWriter
  count n (none, w) = ((n, none), w)
  count n (some error, w) = ((0, some error), w)

  unfoldable pub write_body :
      Text → Option ConnError × ResponseWriter → (ℕ × Option ConnError) × ResponseWriter
  unfolding then_send hex
  write_body p (some error, w) = ((0, some error), w)
  write_body p (none, w) =
      if w.chunked
      then (if length p == 0
          then ((0, none), w)
          else count (length p)
              (then_send crlf (then_send p (send (hex (suc (length p)) (length p) ++ crlf) w))))
      else count (length p) (send p w)

  -- Write
  unfoldable pub write : Text → ResponseWriter → (ℕ × Option ConnError) × ResponseWriter
  unfolding write_body write_header
  write p w = write_body p (write_header w)

  unfoldable pub close_body : Option ConnError × ResponseWriter → Option ConnError × ResponseWriter
  unfolding send
  close_body (some error, w) = (some error, w)
  close_body (none, w) = if w.chunked then send (codes "0\r\n\r\n") w else (none, w)

  -- Close, whose last step, `bw.Flush`, fails where `bw` has failed.
  unfoldable pub close : ResponseWriter → Option ConnError × ResponseWriter
  unfolding close_body write_header then_send
  close w = then_send [] (close_body (write_header w))

  -- Flush
  unfoldable pub flush : ResponseWriter → ResponseWriter
  unfolding write_header
  flush w = (write_header w).1
