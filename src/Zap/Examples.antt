-- ===== src/Zap/Examples.antt =====
-- A ZAP request and its reply.
use libzmq_ru.Base.{◌≡◌, ◌↔◌, [], ◌∷◌}
use libzmq_ru.Error.{ok}
use libzmq_ru.Zap.{
  ZapRequest, ZapReply, new_request, new_reply, encode_request, decode_request, encode_reply,
  decode_reply,
}
use libzmq_ru.Zap.RoundTrip.{IsRequest, IsReply, zap_codecs}

abbrev request : ZapRequest
request = new_request (49 ∷ []) (100 ∷ []) [] [] (78 ∷ 85 ∷ 76 ∷ 76 ∷ []) ((1 ∷ []) ∷ [])

abbrev reply : ZapReply
reply = new_reply (49 ∷ []) (50 ∷ 48 ∷ 48 ∷ []) (79 ∷ 75 ∷ []) [] []

zap_codecs_example :
    ((decode_request (encode_request request) ≡ ok request)
      ↔ ((encode_request request ≡ encode_request request) × IsRequest request))
    × ((decode_reply (encode_request request) ≡ ok reply)
        ↔ ((encode_request request ≡ encode_reply reply) × IsReply reply))
zap_codecs_example = zap_codecs (encode_request request) request reply
