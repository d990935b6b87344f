-- ===== src/Prelude/Python.antt =====
-- Functions of Python's standard library on text, whose results the program only compares, joins or
-- searches: `hashlib.sha256(text.encode()).hexdigest()`, `str.lower`, `str.upper` and `str.strip`.
-- What is proved holds whatever they return.
use Prim.Native.String.{String}

pub record Python : Type 0 where
  pub sha256 : String → String
  pub lower : String → String
  pub upper : String → String
  pub strip : String → String
