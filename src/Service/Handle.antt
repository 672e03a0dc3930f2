-- ===== src/Service/Handle.antt =====
-- `HttpObject::handle` of src/httpservice.cpp with the virtual methods behind it.
use simurga.Base.{Bytes, codes, Result, ok, raise, Exception, invalid_method, std_exception}
use simurga.Pages.Handlers.{get}
use simurga.Pages.World.{World}
use simurga.Service.Object.{M, throw}
use simurga.Service.{
  RequestMethod, head_method, get_method, post_method, put_method, delete_method, HttpObject,
  status_of, what,
}

module _ (w : World) where
  -- head(), which no class overrides
  unfoldable pub head : Bytes → M (Unit {0})
  head id o = get w o.kind id o

  -- create(), update() and remove(), which no class overrides
  unfoldable pub create_object : Bytes → M (Unit {0})
  create_object id = throw invalid_method

  unfoldable pub update : Bytes → M (Unit {0})
  update id = throw invalid_method

  unfoldable pub remove : Bytes → M (Unit {0})
  remove id = throw invalid_method

  -- The switch of `handle`.
  unfoldable pub dispatch : RequestMethod → Bytes → M (Unit {0})
  unfolding head create_object update remove
  dispatch head_method id = head id
  dispatch get_method id = λ o. get w o.kind id o
  dispatch put_method id = create_object id
  dispatch post_method id = update id
  dispatch delete_method id = remove id
  dispatch _ id = throw invalid_method

  -- The two catch clauses.
  unfoldable pub caught : Exception → HttpObject → HttpObject
  unfolding status_of what
  caught (std_exception d) o = record o {
    content_type = codes "text/plain";
    status = codes "500 Internal Server Error";
    output = what (std_exception d);
  }
  caught e o = record o { content_type = codes "text/plain"; output = what e; status = status_of e }

  abbrev pub settle : Result (Unit {0}) × HttpObject → HttpObject
  settle (ok u, o) = o
  settle (raise e, o) = caught e o

  -- handle; every exception ends in the object's fields.
  unfoldable pub handle : Bytes → HttpObject → HttpObject
  unfolding dispatch caught
  handle id o = settle (dispatch o.env.request_method id o)
