-- ===== src/Methods/Replies.antt =====
-- Which requests are answered, and with what.
use gear_mcp_server.Base.{
  ◌≡◌, refl, Bool, true, false, not, Option, none, some, [], ◌∷◌, ◌++◌, ◌&&◌, ◌||◌, if◌then◌else◌,
  Bool-cases, Option-cases, inl, inr, Bytes, codes, is_empty, is_some,
}
use gear_mcp_server.Exec.{
  Exception, std_exception, parse_error, unknown, Result, ok, threw, pure, lift, continue,
}
use gear_mcp_server.Framing.{skip_space}
use gear_mcp_server.Json.{JsonLib}
use gear_mcp_server.Methods.{Host, Server}
use gear_mcp_server.Methods.Rpc.{get_id, make_error, dump_line, method_not_found}
use gear_mcp_server.Methods.Dispatch.{
  handle, method_of, answer, answer_if_id, handle_request, handle_parsed, handle_message,
  internal_error, catch_all,
}

module _ (lib : JsonLib) {W : Type 0} (host : Host W) where
  open lib use {Json, dump, parse, find, as_string}

  -- A notification: a method, and no id.
  abbrev pub is_notification : Result Json → Bool
  is_notification (ok req) =
      is_some (method_of lib host req) && not (is_some (find (codes "id") req))
  is_notification (threw e) = false

  internal_error-nonempty : (e : Exception) → is_empty (internal_error e) ≡ false
  unfolding internal_error
  internal_error-nonempty (std_exception w) = refl
  internal_error-nonempty (parse_error w) = refl
  internal_error-nonempty unknown = refl

  nonempty-append : (xs ys : Bytes) → is_empty ys ≡ false → is_empty (xs ++ ys) ≡ false
  nonempty-append [] ys h = h
  nonempty-append (x ∷ xs) ys h = refl

  dump_line-nonempty : (j : Json) → is_empty (catch_all (dump_line lib j)) ≡ false
  unfolding dump_line
  dump_line-nonempty j = go (dump j)
    where
      go :
          (r : Result Bytes)
          → is_empty (catch_all (elim r [ ok s ↦ ok (s ++ codes "\n") | threw e ↦ threw e ]))
            ≡ false
      go (ok s) = nonempty-append s (codes "\n") refl
      go (threw e) = internal_error-nonempty e

  answer-nonempty :
      (req : Json) (method : Bytes) (s : Server W)
      → is_empty (catch_all (answer lib host req method s).0) ≡ false
  unfolding answer
  answer-nonempty req method s = go (handle lib host req s)
    where
      go :
          (r : Result Bytes × Server W)
          → is_empty (
              catch_all
                (continue r.0
                  (λ response.
                    if not (is_empty response)
                    then pure response
                    else lift (
                        dump_line lib (
                          make_error lib
                            (get_id lib req)
                            method_not_found
                            (codes "Method not found: " ++ method))))
                  r.1).0)
            ≡ false
      go (ok [], s') = dump_line-nonempty _
      go (ok (c ∷ cs), s') = refl
      go (threw e, s') = internal_error-nonempty e

  handle_request-silent :
      (req : Json) (m : Option Bytes) (s : Server W)
      → is_empty (catch_all (handle_request lib host req m s).0)
        ≡ (is_some m && not (is_some (find (codes "id") req)))
  unfolding handle_request
  handle_request-silent req none s = dump_line-nonempty _
  handle_request-silent req (some method) s = go (find (codes "id") req)
    where
      go :
          (o : Option Json)
          → is_empty (catch_all (answer_if_id lib host o req method s).0) ≡ not (is_some o)
      go none = refl
      go (some id) = answer-nonempty req method s

  handle_parsed-silent :
      (r : Result Json) (s : Server W)
      → is_empty (catch_all (handle_parsed lib host r s).0) ≡ is_notification r
  unfolding handle_parsed
  handle_parsed-silent (ok req) s = handle_request-silent req (method_of lib host req) s
  handle_parsed-silent (threw (parse_error w)) s = dump_line-nonempty _
  handle_parsed-silent (threw (std_exception w)) s = internal_error-nonempty _
  handle_parsed-silent (threw unknown) s = internal_error-nonempty _

  -- Nothing is sent back exactly for a text of whitespace only and for a notification; every
  -- other text is answered, whatever it holds and whatever a handler does or throws.
  pub handle_message-silent :
      (text : Bytes) (s : Server W)
      → is_empty (handle_message lib host text s).0
        ≡ (is_empty (skip_space text) || is_notification (parse text))
  unfolding handle_message
  handle_message-silent text s = elim (Bool-cases (is_empty (skip_space text))) [
    | inl blank ↦ rw blank
    | inr visible ↦ rw visible (handle_parsed-silent (parse text) s)
  ]

  -- A text of whitespace only and a notification change nothing on the server and get no answer:
  -- a notification is not dispatched.
  pub handle_message-unanswered :
      (text : Bytes) (s : Server W)
      → (is_empty (skip_space text) || is_notification (parse text)) ≡ true
      → handle_message lib host text s ≡ ([], s)
  unfolding handle_message
  handle_message-unanswered text s h = elim (Bool-cases (is_empty (skip_space text))) [
    | inl blank ↦ rw blank
    | inr visible ↦ rw visible (go (parse text) (rw visible at h))
  ]
    where
      request :
          (req : Json) (m : Option Bytes)
          → (is_some m && not (is_some (find (codes "id") req))) ≡ true
          → ◌≡◌ {A = Bytes × Server W}
              (catch_all (handle_request lib host req m s).0, (handle_request lib host req m s).1)
              ([], s)
      request req none n = cc
      request req (some method) n = elim (Option-cases (find (codes "id") req)) [
        | inl e ↦ unfold handle_request in rw e
        | inr (id, e) ↦ cc (rw e at n)
      ]

      go :
          (r : Result Json)
          → is_notification r ≡ true
          → ◌≡◌ {A = Bytes × Server W}
              (catch_all (handle_parsed lib host r s).0, (handle_parsed lib host r s).1)
              ([], s)
      go (ok req) n = unfold handle_parsed in request req (method_of lib host req) n
      go (threw e) n = cc
