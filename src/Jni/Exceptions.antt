-- ===== src/Jni/Exceptions.antt =====
-- tox4j/ErrorHandling.h and tox4j/ErrorHandling.cpp: the exceptions that the native methods throw.
--
-- A jint is its bit pattern. An exception is the Java object that is thrown; the lookups of its
-- class and constructor succeed when the Java classes are those of this repository.
use Prim.Native.String.{String}
use tox4j.Base.{ℕ}

-- A text, or a text that ends with the largest index of the table.
pub data Message : Type 0 where
  text : String → Message
  text_max : String → ℕ → Message

pub data JavaException : Type 0 where
  tox_killed : ℕ → Message → JavaException
  illegal_state : ℕ → Message → JavaException
  -- The module, the method and the code: ToxMethodException with Code.CODE.
  tox_exception : String → String → String → JavaException

-- ErrorHandling: its result with, for a failure, the name of the code.
pub data ErrorHandling : Type 0 where
  unhandled success : ErrorHandling
  failure : String → ErrorHandling
