-- ===== src/Adapter/Http.antt =====
-- The client's transport (adapter/http/transport.go).
pub mod Settling
use chaotic.Base.{
  ◌++◌, ◌∷◌, [], Bool, true, if◌then◌else◌, leb_ℤ, ℤ, pos, Option, none, some, is_some, Text, bytes,
  length,
}
use chaotic.Fault.{
  Any, Err, conn_drop_err, disconnect_err, http_status_err, header_err, stream_err, context_err,
  plain_err, Outcome, returned, panicked,
}
use chaotic.Engine.Op.{Op}
use chaotic.Engine.Op.Kinds
use chaotic.Engine.Rule.{Call}
use chaotic.Engine.World.{World, Action, enabled, is_nil}
use chaotic.Engine.Eval.{eval}
use chaotic.Engine.Action.{before, result}
use chaotic.Adapter.{
  CallErr, injected, op_error, conn_reset, url_error, Ended, ends, panics, Returned, is_conn_drop,
  report_outcome,
}

-- What is read of a response, with its headers; the body is what reading it gives.
pub record Response (H : Type 0) : Type 0 where
  pub code : ℤ
  pub status : Text
  pub header : H
  pub body : Text
  pub content_length : ℤ

-- What the transport reads of a request.
pub record Request : Type 0 where
  pub path : Text
  pub method : Text
  pub host : Text
  pub url : Text

-- What the transport calls of net/http and strconv: headers, `StatusText`, `Itoa`, and the type
-- assertion to a response, which is not nil, with its inverse.
pub record HttpLib (H : Type 0) : Type 0 where
  pub no_headers : H
  pub del : Text → H → H
  pub set : Text → Text → H → H
  pub status_text : ℤ → Text
  pub itoa : ℤ → Text
  pub as_response : Any → Option (Response H)
  pub as_any : Response H → Any

module _ {H : Type 0} (lib : HttpLib H) where
  -- `synthResponse`.
  unfoldable pub synth_response : ℤ → Text → Response H
  synth_response code text =
      let body = if is_nil text then lib.status_text code else text in
      record {
        code = code;
        status = lib.itoa code ++ b' ' ∷ lib.status_text code;
        header = lib.no_headers;
        body = body;
        content_length = pos (length body);
      }

  -- `applyHeaderFault`.
  unfoldable pub apply_header_fault : Bool → Text → Text → H → H
  apply_header_fault strip key value h = if strip then lib.del key h else lib.set key value h

  -- `translateError`.
  unfoldable pub translate_error : Text → Err → CallErr
  translate_error url e =
      if is_conn_drop e
      then op_error (bytes "dial") (bytes "tcp") conn_reset
      else url_error (bytes "chaos") url (injected e)

  -- The response as the mutators leave it, on success; a value that is no response is passed over.
  unfoldable pub report_result :
      Action → Returned (Response H) → World → World × Returned (Response H)
  report_result a (none, e) w = (w, (none, e))
  report_result a (some resp, some e) w = (w, (some resp, some e))
  report_result a (some resp, none) w =
      let (v, w') = result a (lib.as_any resp) w in
      (w', (some (elim (lib.as_response v) [ none ↦ resp | some m ↦ m ]), none))

  unfoldable pub with_header_fault :
      Bool → Text → Text → Returned (Response H) → Returned (Response H)
  unfolding apply_header_fault
  with_header_fault strip key value (none, e) = (none, e)
  with_header_fault strip key value (some resp, e) =
      (some (record resp { header = apply_header_fault strip key value resp.header }), e)

  module _ {S : Type 0} (wrapped : S → S × Returned (Response H)) where
    -- An injected error that is neither a status nor a header fault.
    unfoldable pub abort :
        Text → Action → World → S → Err → World × S × Ended (Returned (Response H))
    unfolding report_outcome translate_error
    abort url a w s e = (report_outcome a true w, s, ends (none, some (translate_error url e)))

    -- What follows `Before` in `RoundTrip`.
    unfoldable pub proceed :
        Text → Action → World → S → Outcome → World × S × Ended (Returned (Response H))
    unfolding report_outcome synth_response report_result with_header_fault abort
    proceed url a w s (panicked v) = (w, s, panics v)
    proceed url a w s (returned none) =
        let (s', r) = wrapped s in
        let (w', r') = report_result a r w in (report_outcome a (is_some r.1) w', s', ends r')
    proceed url a w s (returned (some (http_status_err code body))) =
        (report_outcome a (leb_ℤ (pos 500) code) w, s, ends (some (synth_response code body), none))
    proceed url a w s (returned (some (header_err strip key value))) =
        let (s', r) = wrapped s in
        (report_outcome a (is_some r.1) w, s', ends (with_header_fault strip key value r))
    proceed url a w s (returned (some e)) = abort url a w s e

    unfoldable pub engine_trip :
        Request → Call → World → S → World × S × Ended (Returned (Response H))
    unfolding proceed
    engine_trip req c w s =
        let op : Op = record {
          kind = Kinds.http_client;
          name = req.path;
          method = req.method;
          attrs = (bytes "host", req.host) ∷ [];
        } in
        let (evaluated, a) = eval c op w in
        let (a', begun, o) = before c.ctx a evaluated in proceed req.url a' begun s o

    -- `RoundTrip`.
    unfoldable pub round_trip :
        Request → Call → World → S → World × S × Ended (Returned (Response H))
    unfolding engine_trip
    round_trip req c w s =
        if enabled w.engine then engine_trip req c w s else (w, (wrapped s).0, ends (wrapped s).1)
