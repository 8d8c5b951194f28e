-- ===== src/Http/Response/Repeat.antt =====
-- A response that is written a second time.
use wruster.Base.{◌≡◌, none, codes, equal}
use wruster.Http.Body
use wruster.Http.Body.{
  Mime, BufWriter, Body, transfer_encoding, content_length_name, check_encoding, declared_length,
}
use wruster.Http.Error.{unknown, ok, err, >>=-eq-ok}
use wruster.Http.Headers
use wruster.Http.Headers.Lookup.{get-add}
use wruster.Http.Headers.{Headers}
use wruster.Http.Io.{Input, Output}
use wruster.Http.Request.{announced, write_body, content_length_header}
use wruster.Http.Response.{Response, used_up, line_of, write}
use wruster.Http.ResponseLine

module _ (mime : Mime) where
  open mime use {Media}

  after_write :
      (buffered : BufWriter) (r after : Response Media) (to sent : Output)
      → write mime buffered r to ≡ ok (after, sent)
      → after ≡ record r { headers = announced r.body r.headers; body = used_up r.body }
  unfolding write
  after_write buffered r after to sent e =
      let (a, ea, e1) = >>=-eq-ok (ResponseLine.write (line_of mime r) to) _ e in
      let (b, eb, e2) = >>=-eq-ok (Headers.write (announced r.body r.headers) a) _ e1 in
      let (c, ec, e3) = >>=-eq-ok (write_body mime buffered r.body b) _ e2 in cc

  twice_announced :
      (from : Input) (headers : Headers)
      → Headers.get headers transfer_encoding ≡ none
      → Headers.get headers content_length_name ≡ none
      → Body.read_from mime from (
          Headers.add
            (Headers.add headers (content_length_header (codes "0")))
            (content_length_header (codes "0")))
        ≡ err (unknown (codes "invalid Content-Length header"))
  unfolding Body.read_from check_encoding declared_length equal
  twice_announced from headers te cl =
      let once = Headers.add headers (content_length_header (codes "0")) in
      rw (
        get-add once (content_length_header (codes "0")) transfer_encoding,
        get-add headers (content_length_header (codes "0")) transfer_encoding,
        te,
        get-add once (content_length_header (codes "0")) content_length_name,
        get-add headers (content_length_header (codes "0")) content_length_name,
        cl,
      )

  -- A response without a body and without a length is changed by a write: the headers that a second
  -- write of it sends hold the length twice, and reading a body by them fails.
  pub read_from-written_twice :
      (buffered : BufWriter) (r after : Response Media) (to sent : Output) (from : Input)
      → r.body ≡ none
      → Headers.get r.headers transfer_encoding ≡ none
      → Headers.get r.headers content_length_name ≡ none
      → write mime buffered r to ≡ ok (after, sent)
      → Body.read_from mime from (announced after.body after.headers)
        ≡ err (unknown (codes "invalid Content-Length header"))
  unfolding announced used_up
  read_from-written_twice buffered r after to sent from bare te cl e =
      rw (after_write buffered r after to sent e, bare) (twice_announced from r.headers te cl)
