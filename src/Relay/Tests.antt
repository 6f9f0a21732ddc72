-- ===== src/Relay/Tests.antt =====
-- The retry loop and Broadcast on sample values.
use bundle_broadcaster.Config.{resolved_url}
use bundle_broadcaster.Relay.Warmup.{warm_connections}
use bundle_broadcaster.Relay.Warmup.Count.{asked, warm_request, warm_connections-replicate}
use bundle_broadcaster.Common.{
  replicate, if◌then◌else◌, ◌≡◌, refl, some, [], arith, ap, ◌∷◌, ◌≢◌, ◌+◌, ◌*◌,
}
use bundle_broadcaster.Samples.{bundle, client, services, call, limiting}
use bundle_broadcaster.Relay.Transport.{
  response, deliver, attempts, is_final, is_retryable_conn_error,
}
use bundle_broadcaster.Relay.Transport.Retries.{Stopped, deliver-Stopped}
use bundle_broadcaster.Relay.Client.{
  posted, broadcast, Call, send, send_body, exchange, conclude, is_cooling, cooldown_end,
  cooldown_ms,
}
use bundle_broadcaster.Relays.Builders.{quasar}
use bundle_broadcaster.Signer.{sign_body}
use bundle_broadcaster.Relay.Client.Cooldown.{
  WasLimited, broadcast_each, after_limit, skips, broadcast_after_429,
}
use bundle_broadcaster.Relay.Client.Recording.{Records, Landed, broadcast-Records}
use bundle_broadcaster.Relay.Client.Verdict.{Judged, broadcast-Judged}

-- The first answer is an error worth a retry, the second one a 429.
deliver_test : deliver (λ s. s) limiting ≡ (some (response 429 ""), 2)
unfolding deliver attempts is_final is_retryable_conn_error
deliver_test = refl

deliver-Stopped_example : Stopped (λ s. s) limiting 3 (deliver (λ s. s) limiting)
deliver-Stopped_example = deliver-Stopped (λ s. s) limiting

broadcast-Judged_example :
    Judged services client bundle call (broadcast services client bundle call)
broadcast-Judged_example = broadcast-Judged services client bundle call

-- One second after the 429.
abbrev later : Call
later = record call { now = 1010000000 }

call_changes : (broadcast services client bundle call).0 ≢ client
unfolding broadcast send send_body exchange conclude is_cooling cooldown_end cooldown_ms deliver
    attempts is_final is_retryable_conn_error quasar sign_body
call_changes e = let h : 1010000000 ≡ 0 = ap (λ c. c.rate_limited_until) e in omega (arith, h)

-- Half a second after the 429.
abbrev early : Call
early = record call { now = 510000000 }

broadcast_after_429_example :
    WasLimited (deliver services.to_lower call.do_request).0
    × (broadcast_each services (broadcast services client bundle call).0 ((bundle, early) ∷ [])
        ≡ skips services client (broadcast services client bundle call).0 ((bundle, early) ∷ []))
    × (broadcast services (broadcast services client bundle call).0 bundle later
        ≡ after_limit services client
            (call.limited_at + cooldown_ms client * 1000000)
            (broadcast services client bundle call).0
            bundle
            later)
broadcast_after_429_example =
    broadcast_after_429 services client bundle call call_changes (unfold cooldown_ms in omega arith)
      ((bundle, early) ∷ []) (unfold cooldown_ms in (omega arith, tt)) bundle later

-- The first answer is the hash.
abbrev good_call : Call
good_call = record call { do_request = λ attempt. response 200 "{}" }

broadcast-Records_example :
    Records (Landed services client bundle good_call) (broadcast services client bundle good_call).1
broadcast-Records_example = broadcast-Records services client bundle good_call

warm_connections-replicate_example : warm_connections services client ≡ (
    if services.is_url (resolved_url client.relay)
    then replicate (asked client.relay.warmup_connections) (posted (warm_request client))
    else [])
warm_connections-replicate_example = warm_connections-replicate services client
