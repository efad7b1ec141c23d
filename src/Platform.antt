-- ===== src/Platform.antt =====
-- Functions of the browser that the code calls. Where their standard fixes what they compute they
-- are definitions here (base64, the URL record and its setters, the values that JSON gives); the URL and JSON parsers are
-- parameters.
pub mod Base64
pub mod Url
pub mod Json
