-- ===== src/Service.antt =====
-- The HTTP objects of src/httpservice.hpp and src/httpservice.cpp: the state of an object, the
-- methods that its classes share, the table of routes, and the handling of a request.
pub mod Object
pub mod Routes
pub mod Routing
pub mod Unrouted
pub mod Links
pub mod Escapes
pub mod Params
pub mod Methods
pub mod Alike
pub mod PageArguments
pub mod Handle
pub mod Handling
use simurga.Base.{
  Bytes, [], codes, Exception, http_exception, not_found, invalid_method, std_exception,
}

-- Fastcgipp::Http::RequestMethod, as the FastCGI library reports it
pub data RequestMethod : Type 0 where
  method_error head_method get_method post_method put_method delete_method : RequestMethod
  trace_method options_method connect_method : RequestMethod

-- What the program reads of Fastcgipp::Http::Environment
pub record Environment : Type 0 where
  pub request_method : RequestMethod
  pub request_uri : Bytes
  pub root : Bytes

-- The classes with a handler of their own.
pub data Kind : Type 0 where
  static_page lookbook collection model : Kind

-- HttpObject; `name` is the field of StaticPageHttpObject, and `output` is data_.
pub record HttpObject : Type 0 where
  pub kind : Kind
  pub env : Environment
  pub status : Bytes
  pub path : Bytes
  pub content_type : Bytes
  pub custom_headers : Bytes
  pub output : Bytes
  pub name : Bytes

-- status() of the exception classes
unfoldable pub status_of : Exception → Bytes
status_of (http_exception d) = codes "500 Internal Server Error"
status_of (not_found d) = codes "404 Not Found"
status_of invalid_method = codes "405 Method Not Allowed"
status_of (std_exception d) = codes "500 Internal Server Error"

-- what()
unfoldable pub what : Exception → Bytes
what (http_exception d) = d
what (not_found d) = d
what invalid_method = codes "Method is not allowed for this object"
what (std_exception d) = d

-- NotFound()
abbrev pub object_not_found : Exception
object_not_found = not_found (codes "Object not found")
