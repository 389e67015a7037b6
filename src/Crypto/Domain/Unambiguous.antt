-- ===== src/Crypto/Domain/Unambiguous.antt =====
-- What is signed under a domain determines the domain and the message.
use mathlib.Core.Option.{some-injective}
use podmesh.Prelude.{ap, ◌∙◌, ◌<◌, sym, list_eq, nat_eq}
use podmesh.Manifest.Text.{Bytes}
use podmesh.Prelude.{
  ◌==◌, if◌then◌else◌, ◌%◌, Option, length, List, ◌≡◌, refl, arith, [], ◌∷◌, ◌++◌, none, some,
}
use podmesh.Crypto.Domain.{
  as_bytes, bind, Bytes, SignatureDomain, label, admission_request, reservation, deployment_grant,
  deployment_receipt, update_request, update_response, workload_command, workload_command_response,
  workload_list_request, workload_list_response, agent_location_query,
  scheduler_reconciliation_query, scheduler_reconciliation_response, capacity_query, capacity_offer,
  endpoint_record, connector_identity, service_catalog, replica_service_record, machine_relay_grant,
  agent_attachment_hello, workload_envelope, sidecar_registration,
}

abbrev pub all_domains : List SignatureDomain
all_domains =
    admission_request ∷ reservation ∷ deployment_grant ∷ deployment_receipt ∷ update_request
    ∷ update_response ∷ workload_command ∷ workload_command_response ∷ workload_list_request
    ∷ workload_list_response ∷ agent_location_query ∷ scheduler_reconciliation_query
    ∷ scheduler_reconciliation_response ∷ capacity_query ∷ capacity_offer ∷ endpoint_record
    ∷ connector_identity ∷ service_catalog ∷ replica_service_record ∷ machine_relay_grant
    ∷ agent_attachment_hello ∷ workload_envelope ∷ sidecar_registration ∷ []

of_label : Bytes → List SignatureDomain → Option SignatureDomain
of_label text [] = none
of_label text (d ∷ ds) = if as_bytes (label d) == text then some d else of_label text ds

of_label-label : (d : SignatureDomain) → of_label (as_bytes (label d)) all_domains ≡ some d
unfolding of_label label as_bytes
of_label-label admission_request = refl
of_label-label reservation = refl
of_label-label deployment_grant = refl
of_label-label deployment_receipt = refl
of_label-label update_request = refl
of_label-label update_response = refl
of_label-label workload_command = refl
of_label-label workload_command_response = refl
of_label-label workload_list_request = refl
of_label-label workload_list_response = refl
of_label-label agent_location_query = refl
of_label-label scheduler_reconciliation_query = refl
of_label-label scheduler_reconciliation_response = refl
of_label-label capacity_query = refl
of_label-label capacity_offer = refl
of_label-label endpoint_record = refl
of_label-label connector_identity = refl
of_label-label service_catalog = refl
of_label-label replica_service_record = refl
of_label-label machine_relay_grant = refl
of_label-label agent_attachment_hello = refl
of_label-label workload_envelope = refl
of_label-label sidecar_registration = refl

label_injective : (d e : SignatureDomain) → as_bytes (label d) ≡ as_bytes (label e) → d ≡ e
label_injective d e same =
    some-injective d e
      (sym (of_label-label d) ∙ ap (λ (t : Bytes). of_label t all_domains) same ∙ of_label-label e)

-- Every label is shorter than 256 bytes.
label_short : (d : SignatureDomain) → length (as_bytes (label d)) < 256
unfolding label as_bytes
label_short admission_request = omega arith
label_short reservation = omega arith
label_short deployment_grant = omega arith
label_short deployment_receipt = omega arith
label_short update_request = omega arith
label_short update_response = omega arith
label_short workload_command = omega arith
label_short workload_command_response = omega arith
label_short workload_list_request = omega arith
label_short workload_list_response = omega arith
label_short agent_location_query = omega arith
label_short scheduler_reconciliation_query = omega arith
label_short scheduler_reconciliation_response = omega arith
label_short capacity_query = omega arith
label_short capacity_offer = omega arith
label_short endpoint_record = omega arith
label_short connector_identity = omega arith
label_short service_catalog = omega arith
label_short replica_service_record = omega arith
label_short machine_relay_grant = omega arith
label_short agent_attachment_hello = omega arith
label_short workload_envelope = omega arith
label_short sidecar_registration = omega arith

-- Texts of one length come off the front of equal texts.
append_cancel :
    (xs ys us vs : Bytes) → length xs ≡ length ys → xs ++ us ≡ ys ++ vs → (xs ≡ ys) × (us ≡ vs)
append_cancel [] [] us vs n e = (refl, e)
append_cancel [] (y ∷ ys) us vs n e = absurd (omega arith)
append_cancel (x ∷ xs) [] us vs n e = absurd (omega arith)
append_cancel (x ∷ xs) (y ∷ ys) us vs n e =
    let (rest, last) = append_cancel xs ys us vs (omega arith) (cc) in (cc, last)

-- The bytes that are signed for one message under one domain are those of no other message, and of
-- no message under another domain.
pub bind_injective : (d e : SignatureDomain) (m n : Bytes) → bind d m ≡ bind e n → (d ≡ e) × (m ≡ n)
unfolding bind
bind_injective d e m n same =
    let parts : (as_bytes (label d) ≡ as_bytes (label e)) × (m ≡ n) =
      append_cancel (as_bytes (label d)) (as_bytes (label e)) m n lengths tails in
    (label_injective d e parts.0, parts.1)
  where
    tails : as_bytes (label d) ++ m ≡ as_bytes (label e) ++ n
    tails = cc

    first : length (as_bytes (label d)) % 256 ≡ length (as_bytes (label e)) % 256
    first = cc

    lengths : length (as_bytes (label d)) ≡ length (as_bytes (label e))
    lengths = omega (arith, first, label_short d, label_short e)
