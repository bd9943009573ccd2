-- ===== src/HttpClient.antt =====
-- Package internal/httpclient: the pacing of requests.
pub mod Limiter
