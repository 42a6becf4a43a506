-- ===== src/Telegram/Pairing.antt =====
-- Who reaches the adapter through the transport.
use developer_assistant.Prelude.{
  Bool, true, false, not, ◌&&◌, [], ◌≡◌, ◌↔◌, refl, ap, ◌∙◌, arith, Bool-cases, inl, inr,
}
use developer_assistant.Prelude.Text.{Text, Unicode}
use developer_assistant.Prelude.Dict.{get}
use developer_assistant.Telegram.Access.{is_allowed}
use developer_assistant.Telegram.Records.{Adapter}
use developer_assistant.Telegram.Adapter.{handle_event}
use developer_assistant.Telegram.Transport.{
  HermesGatewayPayload, TransportConfig, config_violations, to_allowlist_config, is_authorized,
  event_of, receive, no_keys, no_pairs,
}

refused_unchanged :
    (u : Unicode) (p : HermesGatewayPayload) (s : Adapter)
    → is_allowed s.config p.source_chat p.source_user ≡ false
    → (handle_event u (event_of p) s).0 ≡ s
unfolding handle_event
refused_unchanged u p s h = rw h refl

-- With an adapter on the allowlist of the transport, the pairings change nothing: a payload leaves the
-- adapter as it does without any pairing.
pub pairing_has_no_effect :
    (isdigit : Text → Bool) (u : Unicode) (c : TransportConfig) (p : HermesGatewayPayload)
    (s : Adapter)
    → s.config ≡ to_allowlist_config c
    → (receive isdigit u c p s).0 ≡ (receive isdigit u (record c { dm_pairing = [] }) p s).0
unfolding receive is_authorized is_allowed to_allowlist_config get
pairing_has_no_effect isdigit u c p s h =
    elim (Bool-cases (is_allowed (to_allowlist_config c) p.source_chat p.source_user)) [
      | inl a ↦ ground (arith, a)
      | inr n ↦ ground (
        arith,
        n,
        refused_unchanged u p s (ap (λ k. is_allowed k p.source_chat p.source_user) h ∙ n),
      )
    ]

-- The check of the configuration finds nothing exactly if both allow-all flags are off, someone is
-- listed or paired, a token is configured, and exactly one mode is on, with a secret for the webhook.
pub config_violations_iff :
    (c : TransportConfig)
    → (config_violations c ≡ []) ↔ (
        (c.gateway_allow_all ≡ false)
        × ((c.telegram_allow_all ≡ false)
            × (((no_keys c.allowed_chats && (no_keys c.allowed_users && no_pairs c.dm_pairing))
                  ≡ false)
                × ((c.bot_token_configured ≡ true)
                    × ((c.polling_mode ≡ not c.webhook_mode)
                        × (c.webhook_mode ≡ true → c.webhook_secret_configured ≡ true))))))
unfolding config_violations
config_violations_iff c = ground arith
