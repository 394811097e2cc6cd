-- ===== src/Protocol.antt =====
-- One attestation from end to end: the extractor's rows, the manager's request, the attestator's response,
-- the forwarder and the verifier, each as its own file models it. ACCL carries the packet and cuts the
-- response into pieces.
pub mod Honest
mod Tests
