-- ===== src/Certificate.antt =====
-- program/src/certificate.rs: the certificates of the consensus protocol.
use alpenglow_vote.Base.{Option}
use alpenglow_vote.Records.{Hash, Slot}

pub data CertificateType : Type 0 where
  finalize : CertificateType
  finalize_fast : CertificateType
  notarize : CertificateType
  notarize_fallback : CertificateType
  skip : CertificateType

pub record Certificate : Type 0 where
  pub certificate_type : CertificateType
  pub slot : Slot
  pub block_id : Option Hash
  pub replayed_bank_hash : Option Hash
