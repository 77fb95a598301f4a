-- ===== src/Client/Ids.antt =====
-- electron/main/engineClient.ts: the ids of requests differ from each other.
use vanilla_bus.Prelude.{
  ℕ, suc, ◌≡◌, sym, ap, ◌∙◌, [], ◌++◌, Text, codes, arith, append_assoc, drop,
}
use vanilla_bus.Trace.Format.{digits_from, to_string}
use vanilla_bus.Client.Requests.{request_id}
use vanilla_bus.Trace.Decimal.{leading, leading-digits_from, digits_from-append, leading-dash}

-- the number of the request, read behind the four units of `req-`
number_of : Text → ℕ
number_of id = leading 0 (drop 4 id)

number_of-request_id : (seq now : ℕ) → number_of (request_id seq now) ≡ seq
unfolding number_of request_id to_string
number_of-request_id seq now =
    let digits = digits_from 10 (suc seq) seq [] in
    let tail = to_string 10 now in
    ap (leading 0) (
      append_assoc digits (codes "-") tail
      ∙ digits_from-append 10 (suc seq) seq [] (codes "-" ++ tail))
    ∙ leading-digits_from (suc seq) seq (codes "-" ++ tail) (omega arith)
    ∙ leading-dash seq tail

-- The id gives the number of the request back.
pub request_id-injective :
    (seq now later then_ : ℕ) → request_id seq now ≡ request_id later then_ → seq ≡ later
request_id-injective seq now later then_ e =
    sym (number_of-request_id seq now) ∙ ap number_of e ∙ number_of-request_id later then_
