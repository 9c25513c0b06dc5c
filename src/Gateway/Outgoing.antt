-- ===== src/Gateway/Outgoing.antt =====
-- What the gateway sends once the values are collected: the request with placeholders replaced, once
-- or, after a token was refreshed, twice.
use kody_celld.Prelude.{
  ℕ, suc, ◌≤◌, true, not, ◌&&◌, ◌==◌, Option, none, some, List, [], ◌∷◌, ◌++◌, Text, ◌≡◌, refl, sym,
  ap, ◌∙◌, arith, inl, inr, All, All-append, Bool-cases, length,
}
use kody_celld.Act.{Result, ok, err, keeps_then, then_do}
use mathlib.Core.List.{append-nil, append_assoc}
use kody_celld.Oauth.Protocol.Redirects.{Url}
use kody_celld.Gateway.Replace.{Collected, replace_secret_placeholders}
use kody_celld.Gateway.State.{
  OutgoingRequest, Sent, Outcome, injected, failed, GatewayError, GatewayState, Response,
  GatewayHost,
}
use kody_celld.Gateway.Inject.{
  Replacements, integration_names_of, is_empty_list, inject_integrations,
}
use kody_celld.Gateway.Fetch.{
  inspect, replaced_headers, replaced_body, body_for, record_event, answer_of, forward,
  send_injected, shown_names,
}
use kody_celld.Gateway.Pipeline.{
  denial_status, noting_failures, injected_by, retried, after_response, send_all,
}
use kody_celld.Gateway.Steps.{Quiet, inject_integrations-Quiet}
use kody_celld.Integrations.Tokens.{Drawn}

module _ (host : GatewayHost) (r : OutgoingRequest) where
  -- The request with values in place of placeholders, in its URL, headers and body.
  abbrev pub IsFilled : Sent → Type 0
  IsFilled x =
      (rs : Replacements) × (host.store.platform.parse_url
          (replace_secret_placeholders (inspect host r).url_text rs)
        ≡ some x.url)
      × (x.method ≡ r.method)
      × (x.headers ≡ replaced_headers rs r.headers)
      × (x.body ≡ body_for r.method (replaced_body rs (inspect host r).body))

  -- At most so many requests went out, each with the values filled in.
  abbrev pub Sends : ℕ → (s t : GatewayState) → Type 0
  Sends n s t = (xs : List Sent) × (t.sent ≡ s.sent ++ xs) × (length xs ≤ n) × All IsFilled xs

  record_event-Sends :
      (n : ℕ) (s t : GatewayState) (run_id : Option Text) (outcome : Outcome) (status : Option ℕ)
      (secrets : List Text)
      → Sends n s t
      → Sends n s (record_event host run_id outcome status secrets t)
  record_event-Sends n s t none outcome status secrets h = h
  record_event-Sends n s t (some run_id) outcome status secrets h = h

  length-append_one : (xs : List Sent) (x : Sent) → length (xs ++ x ∷ []) ≡ suc (length xs)
  length-append_one [] x = refl
  length-append_one (y ∷ xs) x = ap suc (length-append_one xs x)

  answered-Sends :
      (n : ℕ) (s t : GatewayState) (o : Option Response)
      → Sends n s t
      → Sends n s (answer_of host o t).1
  answered-Sends n s t none h = h
  answered-Sends n s t (some response) h = h

  forward-Sends :
      (n : ℕ) (s t : GatewayState) (x : Sent)
      → Sends n s t
      → IsFilled x
      → Sends (suc n) s (forward host x t).1
  unfolding forward
  forward-Sends n s t x (xs, e, small, filled) own =
      answered-Sends (suc n) s (record t { sent = t.sent ++ x ∷ [] }) (host.send t.sent x)
        (
          xs ++ x ∷ [],
          ap (λ ys. ys ++ x ∷ []) e ∙ append_assoc s.sent xs (x ∷ []),
          omega (arith, small, length-append_one xs x),
          All-append IsFilled xs (x ∷ []) filled (own, tt),
        )

  at_most_one_more : (n : ℕ) (s t : GatewayState) → Sends n s t → Sends (suc n) s t
  at_most_one_more n s t (xs, e, small, filled) = (xs, e, omega (arith, small), filled)

  send_injected-Sends :
      (n : ℕ) (s t : GatewayState) (rs : Replacements)
      → Sends n s t
      → Sends (suc n) s (send_injected host r (inspect host r) rs t).1
  unfolding send_injected
  send_injected-Sends n s t rs h =
      with_url
        (host.store.platform.parse_url (replace_secret_placeholders (inspect host r).url_text rs))
        refl
    where
      with_url :
          (o : Option Url)
          → host.store.platform.parse_url (replace_secret_placeholders (inspect host r).url_text rs)
            ≡ o
          → Sends (suc n) s (send_injected host r (inspect host r) rs t).1
      with_url none e = rw e (at_most_one_more n s t h)
      with_url (some url) e = rw e (
          forward-Sends n s t
            (record {
              method = r.method;
              url = url;
              headers = replaced_headers rs r.headers;
              body = body_for r.method (replaced_body rs (inspect host r).body);
            })
            h (rs, e, refl, refl, refl))

  module _ (c : Collected) (s : GatewayState) where
    injected_by-Sends :
        (n : ℕ) (response : Response) (t : GatewayState)
        → Sends n s t
        → Sends n s (injected_by host r.run_id (shown_names c) response t).1
    injected_by-Sends n response t h =
        record_event-Sends n s t r.run_id injected (some response.status) (shown_names c) h

    retried-Sends :
        (response : Response) (x : Result GatewayError Replacements) (t : GatewayState)
        → Sends 1 s t
        → Sends 2 s (retried host r (inspect host r) c response (x, t)).1
    retried-Sends response (ok rs) t h =
        keeps_then (Sends 2 s) (send_injected host r (inspect host r) rs t) _
          (send_injected-Sends 1 s t rs h) (λ response' u k. injected_by-Sends 2 response' u k)
    retried-Sends response (err e) t h = by_status (denial_status e) refl
      where
        by_status :
            (o : Option ℕ)
            → denial_status e ≡ o
            → Sends 2 s (retried host r (inspect host r) c response (err e, t)).1
        by_status none f = rw (f, retried) (at_most_one_more 1 s t h)
        by_status (some status) f =
            rw (f, retried) (injected_by-Sends 2 response t (at_most_one_more 1 s t h))

    Quiet-sent :
        {A : Type 0} (t : GatewayState) (Q : A → Type 0) (x : Result GatewayError A × GatewayState)
        → Quiet host t Q x
        → x.1.sent ≡ t.sent
    Quiet-sent t Q (ok a, u) h = h.0.0
    Quiet-sent t Q (err e, u) h = h.0

    after_response-Sends :
        (name : Text) (draw : ℕ → Drawn) (now : ℕ) (rs : Replacements) (response : Response)
        (t : GatewayState)
        → Sends 1 s t
        → Sends 2 s (after_response host r (inspect host r) c name draw now rs response t).1
    after_response-Sends name draw now rs response t h =
        elim (Bool-cases
          ((response.status == 401) && not (is_empty_list host (integration_names_of c)))) [
            | inr fine ↦ rw fine (injected_by-Sends 2 response t (at_most_one_more 1 s t h))
            | inl stale ↦
                let again =
                  inject_integrations host name true draw now c.integration_tokens
                    (integration_names_of c) rs t in
                let same_sent : again.1.sent ≡ t.sent = Quiet-sent t _ again (
                  inject_integrations-Quiet host name true draw now c.integration_tokens
                    (integration_names_of c) rs t t (refl, refl, (refl, refl), λ off e. e)) in
                rw stale (retried-Sends response again.0 again.1 (h.0, same_sent ∙ h.1, h.2, h.3))
          ]

    noting_failures-Sends :
        {A : Type 0} (n : ℕ) (x : Result GatewayError A × GatewayState)
        → Sends n s x.1
        → Sends n s (noting_failures host r.run_id (shown_names c) x).1
    noting_failures-Sends n (ok a, t) h = h
    noting_failures-Sends n (err e, t) h =
        record_event-Sends n s t r.run_id failed none (shown_names c) h

    pub send_all-Sends :
        (name : Text) (draw : ℕ → Drawn) (now : ℕ) (rs : Replacements) (t : GatewayState)
        → t.sent ≡ s.sent
        → Sends 2 s (send_all host r (inspect host r) c name draw now rs t).1
    send_all-Sends name draw now rs t e = noting_failures-Sends 2 _ (
        first_sent (send_injected host r (inspect host r) rs t)
          (send_injected-Sends 0 s t rs ([], e ∙ sym (append-nil s.sent), omega arith, tt)))
      where
        first_sent :
            (x : Result GatewayError Response × GatewayState)
            → Sends 1 s x.1
            → Sends 2 s (then_do x (after_response host r (inspect host r) c name draw now rs)).1
        first_sent (ok response, u) h = after_response-Sends name draw now rs response u h
        first_sent (err f, u) h = at_most_one_more 1 s u h
