-- ===== src/Deploys/Webhook/Authentic.antt =====
-- Which calls of a webhook have an effect.
use tetra_host.Prelude.{
  String, ◌≡◌, ◌≢◌, true, Option, none, some, ok, inl, inr, arith, Bool-cases, Option-cases, eq_iff,
}
use tetra_host.Models.{Db, DeployHook}
use tetra_host.Deploys.{Settings, Box}
use tetra_host.Deploys.Env.{decrypt}
use tetra_host.Deploys.Hooks.{get_hook, verify_signature, sign}
use tetra_host.Deploys.Webhook.{Payload, Call, Reply, github_webhook, on_hook}

verify_signature-header :
    (hmac : String → String → String) (secret body : String) (signature : Option String)
    → verify_signature hmac secret body signature ≡ true
    → (secret ≢ "") × (signature ≡ some (sign hmac secret body))
unfolding verify_signature
verify_signature-header hmac secret body none valid = cc
verify_signature-header hmac secret body (some header) valid =
    let shown = eq_iff (sign hmac secret body) header in
    let filled = eq_iff secret "" in (λ empty. ground arith, ground arith)

module _ (cfg : Settings) (box : Box) (hmac : String → String → String)
    (json : String → Option Payload) (row_id id hook_id : String) (call : Call) (db : Db) where
  -- A call that is answered without an error names an enabled hook with a secret that is not empty,
  -- and carries the signature of its body under that secret.
  pub github_webhook-authentic :
      {reply : Reply} {after : Db}
      → github_webhook cfg box hmac json row_id id hook_id call db ≡ ok (reply, after)
      → (hook : DeployHook) × (get_hook hook_id db ≡ some hook)
        × (hook.enabled ≡ true)
        × (decrypt box hook.secret ≢ "")
        × (call.signature ≡ some (sign hmac (decrypt box hook.secret) call.body))
  unfolding github_webhook on_hook
  github_webhook-authentic answered = elim (Option-cases (get_hook hook_id db)) [
    | inl gone ↦ let never = rw gone at answered in cc
    | inr (hook, here) ↦
        let secret = decrypt box hook.secret in
        elim (Bool-cases hook.enabled) [
          | inr off ↦ let never = rw (here, off) at answered in cc
          | inl on ↦ elim (Bool-cases (verify_signature hmac secret call.body call.signature)) [
            | inr forged ↦ let never = rw (here, on, forged) at answered in cc
            | inl valid ↦
                let (filled, shown) =
                  verify_signature-header hmac secret call.body call.signature valid in
                (hook, here, on, filled, shown)
          ]
        ]
  ]
