-- ===== src/Middleware/Order.antt =====
-- In which order the middleware runs.
use hush_rs.Base.{◌≡◌, refl, ap, ◌∙◌, List, [], ◌∷◌, ◌++◌}
use mathlib.Core.List.{reverse, reverse-cons}
use hush_rs.Middleware.{wrap_all, wrapped}

-- The handler inside its middleware, the first outermost.
unfoldable pub nested : {H : Type 0} → List (H → H) → H → H
nested [] h = h
nested (mw ∷ mws) h = mw (nested mws h)

wrap_all-append :
    {H : Type 0} (as' bs : List (H → H)) (h : H)
    → wrap_all (as' ++ bs) h ≡ wrap_all bs (wrap_all as' h)
unfolding wrap_all
wrap_all-append [] bs h = refl
wrap_all-append (mw ∷ as') bs h = wrap_all-append as' bs (mw h)

-- `Server::handle` puts the middleware that was registered first outermost: it sees the request
-- first and the result last.
pub wrapped-nested : {H : Type 0} (mws : List (H → H)) (h : H) → wrapped mws h ≡ nested mws h
unfolding wrapped wrap_all nested
wrapped-nested [] h = refl
wrapped-nested (mw ∷ mws) h =
    ap (λ l. wrap_all l h) (reverse-cons mw mws)
    ∙ wrap_all-append (reverse mws) (mw ∷ []) h
    ∙ ap mw (wrapped-nested mws h)
